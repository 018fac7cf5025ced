-- ===== src/Limiter/Online/Report.antt =====
-- What `GetOnlineDevice` reports, and what it leaves.
use v2b_x.Base.{
  ◌≡◌, ◌∙◌, refl, sym, ap, Bool, true, ◌&&◌, ◌||◌, not, none, List, [], ◌∷◌, ◌++◌, Bytes, bytes_eq,
  bytes_eq_iff, any, Assoc, get, put, get-del, arith, Bool-cases, inl, inr,
}
use v2b_x.Base.Int.{ℤ, eqb_ℤ, eqb_ℤ_iff}
use v2b_x.Transfer.Types.{bytes_key}
use v2b_x.Limiter.Types.{OnlineUser, Limiter}
use v2b_x.Limiter.Online.{user_eq, listed, unless_seen, report_ips, report_tags, get_online_device}

-- A user whose address is in a map of addresses, and in the map of some tag.
abbrev pub has_ip : OnlineUser → Assoc Bytes ℤ → Bool
has_ip u ips = any (λ p. eqb_ℤ p.1 u.uid && bytes_eq p.0 u.ip) ips

abbrev pub is_online : OnlineUser → Assoc Bytes (Assoc Bytes ℤ) → Bool
is_online u tags = any (λ t. has_ip u t.1) tags

-- No entry stands twice.
abbrev pub distinct : List OnlineUser → Bool
distinct [] = true
distinct (u ∷ rest) = not (listed u rest) && distinct rest

user_eq-same : (u v w : OnlineUser) → user_eq u v ≡ true → user_eq w u ≡ user_eq w v
user_eq-same u v w h =
    let a : u.uid ≡ v.uid = (eqb_ℤ_iff u.uid v.uid).0 (ground arith) in
    let b : u.ip ≡ v.ip = (bytes_eq_iff u.ip v.ip).0 (ground arith) in
    ap (λ x. eqb_ℤ w.uid x && bytes_eq w.ip u.ip) a
    ∙ ap (λ x. eqb_ℤ w.uid v.uid && bytes_eq w.ip x) b

user_eq-flip : (u v : OnlineUser) → user_eq u v ≡ true → user_eq v u ≡ true
user_eq-flip u v h =
    let a : u.uid ≡ v.uid = (eqb_ℤ_iff u.uid v.uid).0 (ground arith) in
    let b : u.ip ≡ v.ip = (bytes_eq_iff u.ip v.ip).0 (ground arith) in
    let a' = (eqb_ℤ_iff v.uid u.uid).1 (sym a) in
    let b' = (bytes_eq_iff v.ip u.ip).1 (sym b) in ground arith

user_eq-sym : (u v : OnlineUser) → user_eq u v ≡ user_eq v u
user_eq-sym u v = elim (Bool-cases (user_eq u v)) [
  | inl f ↦ f ∙ sym (user_eq-flip u v f)
  | inr f ↦ elim (Bool-cases (user_eq v u)) [
    | inl g ↦ user_eq-flip v u g ∙ sym g
    | inr g ↦ f ∙ sym g
  ]
]

listed-same :
    (u v : OnlineUser) (out : List OnlineUser) → user_eq u v ≡ true → listed u out ≡ listed v out
listed-same u v [] h = refl
listed-same u v (w ∷ out) h = rw (user_eq-same u v w h, listed-same u v out h) refl

listed-append :
    (u e : OnlineUser) (out : List OnlineUser)
    → listed u (out ++ e ∷ []) ≡ (listed u out || user_eq e u)
listed-append u e [] = ground arith
listed-append u e (w ∷ out) = let h = listed-append u e out in ground arith

listed-unless_seen :
    (u e : OnlineUser) (out : List OnlineUser)
    → listed u (unless_seen out e) ≡ (listed u out || user_eq e u)
listed-unless_seen u e out = elim (Bool-cases (listed e out)) [
  | inr b ↦ rw b (listed-append u e out)
  | inl b ↦ rw b (elim (Bool-cases (user_eq e u)) [
    | inl f ↦ let g = sym (listed-same e u out f) ∙ b in ground arith
    | inr f ↦ ground arith
  ])
]

or_assoc : (a b c : Bool) → ((a || b) || c) ≡ (a || (b || c))
or_assoc a b c = ground arith

regroup : (a b d e : Bool) → (not (a || b) && (d && not e)) ≡ ((not a && d) && not (b || e))
regroup a b d e = ground arith

distinct-append :
    (e : OnlineUser) (out : List OnlineUser)
    → distinct (out ++ e ∷ []) ≡ (distinct out && not (listed e out))
distinct-append e [] = ground arith
distinct-append e (w ∷ out) =
    ap (λ x. not (listed w (out ++ e ∷ [])) && x) (distinct-append e out)
    ∙ ap (λ x. not x && (distinct out && not (listed e out)))
        (listed-append w e out ∙ ap (λ x. listed w out || x) (user_eq-sym e w))
    ∙ regroup (listed w out) (user_eq w e) (distinct out) (listed e out)

distinct-unless_seen :
    (e : OnlineUser) (out : List OnlineUser)
    → distinct out ≡ true
    → distinct (unless_seen out e) ≡ true
distinct-unless_seen e out h = elim (Bool-cases (listed e out)) [
  | inl b ↦ rw b h
  | inr b ↦ rw (b) (distinct-append e out ∙ rw (h, b) refl)
]

report_ips-listed :
    (u : OnlineUser) (ips old : Assoc Bytes ℤ) (out : List OnlineUser)
    → listed u (report_ips ips old out).1 ≡ (listed u out || has_ip u ips)
unfolding report_ips
report_ips-listed u [] old out = ground arith
report_ips-listed u ((ip, uid) ∷ rest) old out =
    let e : OnlineUser = record { uid = uid; ip = ip } in
    report_ips-listed u rest (put bytes_key ip uid old) (unless_seen out e)
    ∙ ap (λ x. x || has_ip u rest) (listed-unless_seen u e out)
    ∙ or_assoc (listed u out) (user_eq e u) (has_ip u rest)

report_ips-distinct :
    (ips old : Assoc Bytes ℤ) (out : List OnlineUser)
    → distinct out ≡ true
    → distinct (report_ips ips old out).1 ≡ true
unfolding report_ips
report_ips-distinct [] old out h = h
report_ips-distinct ((ip, uid) ∷ rest) old out h =
    report_ips-distinct rest (put bytes_key ip uid old)
      (unless_seen out (record { uid = uid; ip = ip }))
      (distinct-unless_seen (record { uid = uid; ip = ip }) out h)

report_tags-listed :
    (u : OnlineUser) (tags : Assoc Bytes (Assoc Bytes ℤ)) (l : Limiter) (out : List OnlineUser)
    → listed u (report_tags tags l out).0 ≡ (listed u out || is_online u tags)
unfolding report_tags
report_tags-listed u [] l out = ground arith
report_tags-listed u ((t, ips) ∷ rest) l out =
    report_tags-listed u rest _ (report_ips ips l.old_user_online out).1
    ∙ ap (λ x. x || is_online u rest) (report_ips-listed u ips l.old_user_online out)
    ∙ or_assoc (listed u out) (has_ip u ips) (is_online u rest)

report_tags-distinct :
    (tags : Assoc Bytes (Assoc Bytes ℤ)) (l : Limiter) (out : List OnlineUser)
    → distinct out ≡ true
    → distinct (report_tags tags l out).0 ≡ true
unfolding report_tags
report_tags-distinct [] l out h = h
report_tags-distinct ((t, ips) ∷ rest) l out h =
    report_tags-distinct rest _ (report_ips ips l.old_user_online out).1
      (report_ips-distinct ips l.old_user_online out h)

-- Every tag that the outer loop visits is deleted.
report_tags-deletes :
    (tags : Assoc Bytes (Assoc Bytes ℤ)) (l : Limiter) (out : List OnlineUser) (t : Bytes)
    → get bytes_key t l.user_online_ip ≡ none
    → get bytes_key t (report_tags tags l out).1.user_online_ip ≡ none
unfolding report_tags
report_tags-deletes [] l out t h = h
report_tags-deletes ((s, ips) ∷ rest) l out t h = report_tags-deletes rest _ _ t (
    rw (get-del bytes_key s t l.user_online_ip)
      elim (Bool-cases (bytes_eq s t)) [ inl b ↦ rw b refl | inr b ↦ rw b h ])

report_tags-empties :
    (tags : Assoc Bytes (Assoc Bytes ℤ)) (l : Limiter) (out : List OnlineUser) (t : Bytes)
    → get bytes_key t l.user_online_ip ≡ get bytes_key t tags
    → get bytes_key t (report_tags tags l out).1.user_online_ip ≡ none
unfolding report_tags get
report_tags-empties [] l out t h = h
report_tags-empties ((s, ips) ∷ rest) l out t h = elim (Bool-cases (bytes_eq s t)) [
  | inl b ↦ report_tags-deletes rest _ _ t (get-del bytes_key s t l.user_online_ip ∙ rw b refl)
  | inr b ↦
      report_tags-empties rest _ _ t (get-del bytes_key s t l.user_online_ip ∙ rw b (h ∙ rw b refl))
]

-- The report of `GetOnlineDevice` has a user with an address exactly where some tag has the address
-- online for the user, has no entry twice, and behind it no tag has an address online.
pub get_online_device_lem :
    (l : Limiter)
    → ((u : OnlineUser) → listed u (get_online_device l).0 ≡ is_online u l.user_online_ip)
      × (distinct (get_online_device l).0 ≡ true)
      × ((t : Bytes) → get bytes_key t (get_online_device l).1.user_online_ip ≡ none)
unfolding get_online_device
get_online_device_lem l =
    let m = record l { old_user_online = [] } in
    (
      λ u. report_tags-listed u l.user_online_ip m [],
      report_tags-distinct l.user_online_ip m [] refl,
      λ t. report_tags-empties l.user_online_ip m [] t refl,
    )
