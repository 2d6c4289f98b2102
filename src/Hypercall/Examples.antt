-- ===== src/Hypercall/Examples.antt =====
-- Messages at which the theorems on plugin/hypercall.c are applied.
use qemu_mip.Guest.{Memory, write_all}
use qemu_mip.Hypercall.{init, cmd_name, take_event, window_size}
use qemu_mip.Hypercall.Delivery.{message, message_delivered}
use qemu_mip.Hypercall.Events.{Mirrors, Fits, run, run_spec, run_refines}
use qemu_mip.Prelude.{◌≡◌, true, none, some, All, arith, codes, get_or-replicate, length-replicate}

abbrev empty : Memory
empty a = 0

init-Mirrors : Mirrors init empty
unfolding init
init-Mirrors = record {
  size = length-replicate window_size 0;
  bytes = λ j h. get_or-replicate window_size 0 j 0 h;
}

message-Fits : All Fits (message 2 7 0)
message-Fits = omega arith

run_refines_example :
    Mirrors (run init (message 2 7 0)) (write_all empty (message 2 7 0))
    × ((run init (message 2 7 0)).st ≡ run_spec init.st empty (message 2 7 0))
run_refines_example = run_refines init empty (message 2 7 0) init-Mirrors message-Fits

-- a guest program that exits with status 7
message_delivered_example :
    let t = run init (message 2 7 0) in
    (take_event t).0
      ≡ some (record {
        count = 4;
        last_cmd = 2;
        last_status = 7;
        have_event = true;
        last_name = codes "EXIT";
      })
    × ((take_event (take_event t).1).0 ≡ none)
unfolding init cmd_name
message_delivered_example =
    message_delivered init empty 2 7 0 init-Mirrors (omega arith) (omega arith)
