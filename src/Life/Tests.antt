-- ===== src/Life/Tests.antt =====
-- The theorems on a context's life at a concrete input: the two processors of Hardware/Arch/Tests,
-- without CUDA devices.
use libtorque.Base.{◌≡◌, refl, true, false, [], none, some, arith}
use libtorque.Events.Wait.{Kernel}
use libtorque.Events.Signals.{Addresses, opened}
use libtorque.Context.{Answers}
use libtorque.Hardware.Arch.Tests.{
  system, fuel, detection, processor, first_two, first_two-dense, system-Works,
}
use libtorque.Hardware.Arch.Loop.{members}
use libtorque.Context.Success.{Grants}
use libtorque.Hardware.Arch.{empty, portable_cpuset_count, count_from}
use libtorque.Hardware.Arch.Whole.{Cuda}
use libtorque.Hardware.Arch.Whole.Success.{HasDevices}
use libtorque.Hardware.Memory.Nodes.{MemorySystem, determine_sysmem}
use libtorque.Hardware.Memory.Nodes.Success.{HasMemory}
use libtorque.Life.{Ctx, Held, Signals, context, Machine, torque_init, torque_stop, torque_block}
use libtorque.Life.Balance.{GivesBack, torque_stop-torque_init}
use libtorque.Life.Success.{Allows, torque_init-succeeds}

abbrev agreeable : Kernel
agreeable asked r = true

abbrev answers : Answers
answers = record {
  ctx_malloc = true;
  fdarray_malloc = true;
  sigarray_malloc = true;
  max_fds = 8;
  sigrtmax = 16;
  sigset_works = true;
  signalfd = opened 3;
  handlers_work = true;
  dns_init = true;
  epoll_create = some 4;
  load_dns_fds = true;
  kernel = agreeable;
}

abbrev addresses : Addresses
addresses = record { signalfd_demultiplexer = 1; rxcommonsignal = 2; ctx = 3 }

abbrev no_devices : Cuda
no_devices = record {
  devcount = some 0;
  cudaid = λ i. some (processor 1 1);
  grow_types = λ n. true;
}

abbrev memory : MemorySystem
memory = record {
  phys_pages = some 1024;
  pagesize = some 4096;
  rlimit_as = none;
  grow_psizes = λ n. true;
  grow_nodes = true;
}

abbrev machine : Machine
machine = record {
  fuel = fuel;
  cpu_setsize = 4;
  system = system;
  cuda = no_devices;
  memory = memory;
}

abbrev signals : Signals
signals = record {
  sigaction_works = true;
  sigpipe_default = true;
  ignore_works = true;
  makesigmask_works = true;
  block_works = true;
  setmask_works = true;
  torque_sigmask_works = true;
  reap_works = true;
  remaining = λ ts. [];
  close_works = true;
  restore_works = true;
}

abbrev before : Held
before = record {
  ledger = record { heap = 5; fds = 3; dns = 0 };
  machinery = record { detected = empty; nodes = [] };
  masked = false;
}

granted : Grants answers
granted = record {
  ctx_malloc = refl;
  fdarray_malloc = refl;
  sigarray_malloc = refl;
  sigset_works = refl;
  common_signalfd = 3;
  signalfd = refl;
  inside = omega arith;
  signals = omega arith;
  handlers_work = refl;
  dns_init = refl;
  efd = 4;
  epoll_create = refl;
  load_dns_fds = refl;
  kernel = λ asked r. refl;
}

devices : HasDevices no_devices
devices = record {
  devs = 0;
  devcount = refl;
  describe = λ i. processor 1 1;
  cudaid = λ i. refl;
  grows = λ n. refl;
}

has_memory : HasMemory memory
unfolding determine_sysmem
has_memory = record {
  psize = 4096;
  grows = λ n. refl;
  pagesize = refl;
  sysmem = λ e. absurd (omega arith);
  grow_nodes = refl;
}

allowed : Allows signals
allowed = record {
  sigaction_works = refl;
  ignore_works = refl;
  makesigmask_works = refl;
  block_works = refl;
  setmask_works = refl;
}

torque_init-succeeds_example :
    (c : Ctx) × (s : Held) × (torque_init signals answers addresses machine before ≡ context c s)
    × (s.machinery.detected.threads ≡ members 4 0 first_two)
unfolding portable_cpuset_count count_from
torque_init-succeeds_example =
    torque_init-succeeds signals answers addresses machine before first_two allowed granted refl
      system-Works refl refl (omega arith) first_two-dense devices has_memory

abbrev begun :
    (c : Ctx) × (s : Held) × (torque_init signals answers addresses machine before ≡ context c s)
    × (s.machinery.detected.threads ≡ members 4 0 first_two)
unfolding portable_cpuset_count count_from
begun =
    torque_init-succeeds signals answers addresses machine before first_two allowed granted refl
      system-Works refl refl (omega arith) first_two-dense devices has_memory

torque_stop-torque_init_example :
    GivesBack signals before.ledger begun.1.machinery (torque_stop signals begun.1)
    × GivesBack signals before.ledger begun.1.machinery (torque_block signals begun.1)
torque_stop-torque_init_example =
    torque_stop-torque_init signals signals answers addresses machine before begun.1 begun.0
      detection.0 (refl, refl, refl) detection.1 begun.2
      (record {
        torque_sigmask_works = refl;
        reap_works = refl;
        close_works = refl;
        restore_works = refl;
      })
