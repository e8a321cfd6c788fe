-- ===== src/Fault/Tests.antt =====
-- A page fault at an address that is not mapped.
use simply_os.Base.{◌≡◌, refl, arith, [], ◌==◌, if◌then◌else◌}
use simply_os.Terminal.{Terminal, write}
use simply_os.Console.{halts}
use simply_os.Paging
use simply_os.Paging.Walk.{IsRecursive}
use simply_os.Interrupts.Irq.{Registers}
use simply_os.Fault.{exception_handler}
use simply_os.Fault.Report.{message, alarm, exception_handler-halts}

-- A directory at physical 0x100000, with its own entry and no other.
abbrev machine : Paging.Machine
machine = record {
  pmm = record { bitmap = []; frame_count = 0; used_count = 0 };
  phys = λ x. if x == 0x100FFC then 0x100003 else 0;
  page_directory = 0xC0100000;
}

machine-IsRecursive : IsRecursive machine
machine-IsRecursive = record { high = omega arith; word = omega arith; aligned = refl; slot = refl }

abbrev saved : Registers
saved = record {
  gs = 16;
  fs = 16;
  es = 16;
  ds = 16;
  edi = 0;
  esi = 0;
  ebp = 0;
  esp = 0;
  ebx = 1;
  edx = 2;
  ecx = 3;
  eax = 4;
  int_no = 14;
  err_code = 2;
  eip = 0xC0101234;
  cs = 8;
  eflags = 0x202;
  useresp = 0;
  ss = 0;
}

abbrev screen : Terminal
screen = record { row = 0; column = 0; color = 7; cells = λ i. 0; out = [] }

exception_handler-halts_example :
    exception_handler machine 0xDEAD0000 saved screen
    ≡ halts (write (message machine 0xDEAD0000 saved) (alarm screen))
exception_handler-halts_example =
    exception_handler-halts machine 0xDEAD0000 saved screen machine-IsRecursive (omega arith)
