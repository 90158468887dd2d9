-- ===== src/Api/Tests.antt =====
-- The theorems on the interface at concrete inputs: a table of two descriptors.
use libtorque.Base.{true, false, [], ◌∷◌, none, some}
use libtorque.Events.Sources.{unset}
use libtorque.Events.Wait.{Kernel}
use libtorque.Events.Timer.{Process}
use libtorque.Api.{Callbacks, torque_addfd}
use libtorque.Api.Owns.{BufferOwned, torque_addfd-BufferOwned}

abbrev process : Process
process = record {
  world = record {
    tables = record { fdarray = unset ∷ unset ∷ []; sigarray = [] };
    asked = [];
    calls = [];
  };
  heap = 0;
  pages = 0;
  fds = 0;
}

abbrev callbacks : Callbacks
callbacks = record {
  buffered_rxfxn = 1;
  buffered_txfxn = 2;
  conn_unbuffered_txfxn = 3;
  signalfd_demultiplexer = 4;
  timer_passthru = 5;
  ctx = 6;
}

abbrev contrary : Kernel
contrary asked r = false

torque_addfd-BufferOwned_example :
    BufferOwned process
      (torque_addfd contrary callbacks (some 8) true (some 1) (some 9) none process)
torque_addfd-BufferOwned_example =
    torque_addfd-BufferOwned contrary callbacks (some 8) true (some 1) (some 9) none process
