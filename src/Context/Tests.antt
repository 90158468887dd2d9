-- ===== src/Context/Tests.antt =====
-- The theorem on the context at a concrete input: the signal handlers cannot be installed.
use libtorque.Base.{true, false, some}
use libtorque.Events.Wait.{Kernel}
use libtorque.Events.Signals.{Addresses, opened}
use libtorque.Context.{Answers, Ledger, create_torque_ctx}
use libtorque.Context.Held.{Balances, create_torque_ctx-Balances}

abbrev agreeable : Kernel
agreeable asked r = true

abbrev answers : Answers
answers = record {
  ctx_malloc = true;
  fdarray_malloc = true;
  sigarray_malloc = true;
  max_fds = 8;
  sigrtmax = 64;
  sigset_works = true;
  signalfd = opened 3;
  handlers_work = false;
  dns_init = true;
  epoll_create = some 4;
  load_dns_fds = true;
  kernel = agreeable;
}

abbrev addresses : Addresses
addresses = record { signalfd_demultiplexer = 1; rxcommonsignal = 2; ctx = 3 }

abbrev before : Ledger
before = record { heap = 5; fds = 3; dns = 0 }

create_torque_ctx-Balances_example :
    Balances answers before (create_torque_ctx answers addresses before)
create_torque_ctx-Balances_example = create_torque_ctx-Balances answers addresses before
