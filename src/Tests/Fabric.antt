-- ===== src/Tests/Fabric.antt =====
-- internal/rdma at concrete inputs: a fabric whose state counts the calls, with one call that fails.
use golinker.Base.{ℕ, ◌+◌, ◌≡◌, refl, false, not, some, [], ◌==◌, if◌then◌else◌}
use golinker.Errors.{ok, err}
use golinker.Rdma.Cm.{dial, dial_address, dial_queues, dial_connect}
use golinker.Rdma.Dial.{api_qp_config, new_dialer, dial_conn, lifetime, dial_conn-IsLeaked}
use golinker.Rdma.Ledger.{
  pd, send_cq, recv_cq, QpConfig, addr_resolved, route_resolved, established, Lib, Fabric, op_error,
  connect, acquire, attempt_op, await_event, expected, call_cleanups, record_action,
}
use golinker.Rdma.Release.{IsUndone, IsLeaked, dial-IsUndone}

-- The events come in the order that Dial waits for them; the call with number `n` fails.
abbrev fabric_lib : ℕ → Lib (ℕ × ℕ)
fabric_lib n = record {
  run = λ op w. (not (w.0 == n), (w.0 + 1, w.1));
  next_event = λ w. (
    some (if w.1 == 0 then addr_resolved else if w.1 == 1 then route_resolved else established),
    (w.0, w.1 + 1),
  );
}

abbrev empty : Fabric (ℕ × ℕ)
empty = record { log = []; ids = 0; channels = 0; world = (0, 0) }

abbrev limits : QpConfig
limits = record {
  max_send_wr = 64;
  max_recv_wr = 256;
  max_send_sge = 1;
  max_recv_sge = 1;
  max_inline_data = 0;
  sq_sig_all = false;
}

-- The eighth call is rdma_connect.
refused : (dial (fabric_lib 8) limits empty).0 ≡ err (op_error connect)
unfolding dial dial_address dial_queues dial_connect acquire attempt_op await_event expected
    call_cleanups record_action
refused = refl

dial-IsUndone_example : IsUndone [] (dial (fabric_lib 8) limits empty).1.log
dial-IsUndone_example = dial-IsUndone (fabric_lib 8) limits empty (op_error connect) refused

connected : (dial (fabric_lib 100) (api_qp_config 64) (new_dialer empty)).0 ≡ ok tt
unfolding dial dial_address dial_queues dial_connect acquire attempt_op await_event expected
    call_cleanups record_action new_dialer
connected = refl

dial_conn-IsLeaked_example :
    IsLeaked [] pd (lifetime (dial_conn (fabric_lib 100) 64 empty)).log
    × IsLeaked [] send_cq (lifetime (dial_conn (fabric_lib 100) 64 empty)).log
    × IsLeaked [] recv_cq (lifetime (dial_conn (fabric_lib 100) 64 empty)).log
dial_conn-IsLeaked_example = dial_conn-IsLeaked (fabric_lib 100) 64 empty connected
