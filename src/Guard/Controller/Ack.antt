-- ===== src/Guard/Controller/Ack.antt =====
-- `ack` (controller.go): what the guard holds of the lease of a command.
use v2b_x.Base.{
  ℕ, true, false, ◌&&◌, not, Option, none, some, [], bytes_eq, ◌==◌, if◌then◌else◌, length, get,
}
use v2b_x.Transfer.Types.{identity_key}
use v2b_x.Guard.Types.{ActiveLease, Guard, expired}
use v2b_x.Guard.Bindings.{tracking_ready}
use v2b_x.Guard.Sessions.{count_sessions}
use v2b_x.Guard.Leases.{is_bound}
use v2b_x.Guard.Controller.Types.{
  Command, marked, Controller, ended, not_applied, interrupted_by_reboot, superseded, isolated,
  Acknowledgement,
}

unfoldable pub ack_leased :
    ℕ → Command → Guard → Option ActiveLease → Acknowledgement → Acknowledgement
unfolding count_sessions
ack_leased now cmd g none a = a
ack_leased now cmd g (some l) a =
    let n = count_sessions cmd.lease.identity g.sessions in
    if expired l now
    then a
    else if not (bytes_eq l.lease.id cmd.lease.id)
    then record a { current_lease_id = l.lease.id; state = superseded; reject_new = true }
    else record a {
      current_lease_id = l.lease.id;
      state = isolated;
      reject_new = true;
      outstanding = n;
      existing_closed = n == 0 && a.tracking_ready;
    }

-- `now` is the reading that `ack` makes if the identity has a lease.
unfoldable pub ack : ℕ → Command → Controller → Acknowledgement
unfolding ack_leased
ack now cmd c =
    let reconciled = length c.reconcile == 0 in
    let l = cmd.lease in
    let a : Acknowledgement = record {
      node = c.node;
      sequence = cmd.sequence;
      lease_id = l.id;
      state = ended;
      reject_new = false;
      existing_closed = false;
      outstanding = 0;
      manual = l.manual;
      expires_at = l.expires_at;
      tracking_ready = tracking_ready c.guard && reconciled;
      identity_bound = false;
      current_lease_id = [];
      reconciliation_required = not reconciled;
    } in
    if marked l.id c.cancelled
    then record a { state = not_applied }
    else ack_leased now cmd c.guard (get identity_key l.identity c.guard.leases) (record a {
      state = if marked l.id c.reconcile then interrupted_by_reboot else ended;
      identity_bound = is_bound l.identity c.guard.bindings;
    })
