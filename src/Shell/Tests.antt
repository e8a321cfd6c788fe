-- ===== src/Shell/Tests.antt =====
-- A session: a command with a correction.
use simply_os.Base.{
  ℕ, refl, arith, List, [], ◌∷◌, ◌++◌, ◌==◌, if◌then◌else◌, replicate, length-replicate,
}
use simply_os.Base.Text.{codes}
use simply_os.Terminal.{write, putchar}
use simply_os.Console.{goes, ◌>>=◌}
use simply_os.Paging
use simply_os.Paging.Lookup.{translate-absent}
use simply_os.Paging.{translate}
use simply_os.Interrupts.Irq.{Registers}
use simply_os.Shell.{Shell, World, run, prompt_text, welcome}
use simply_os.Shell.Command.{IsUp, command}
use simply_os.Shell.Session.{Shows, edit_all, run-edit_all, run-command}

abbrev machine : Paging.Machine
machine = record {
  pmm = record { bitmap = []; frame_count = 0; used_count = 0 };
  phys = λ x. if x == 0x100FFC then 0x100003 else 0;
  page_directory = 0xC0100000;
}

abbrev saved : Registers
saved = record {
  gs = 16;
  fs = 16;
  es = 16;
  ds = 16;
  edi = 0;
  esi = 0;
  ebp = 0;
  esp = 0;
  ebx = 0;
  edx = 0;
  ecx = 0;
  eax = 0;
  int_no = 14;
  err_code = 0;
  eip = 0xC0101234;
  cs = 8;
  eflags = 0x202;
  useresp = 0;
  ss = 0;
}

abbrev world : World
world = record { machine = machine; heap_used = 192; heap_total = 4096; saved = saved }

world-IsUp : IsUp world
world-IsUp = record {
  recursive = record { high = omega arith; word = omega arith; aligned = refl; slot = refl };
  unmapped = translate-absent machine 0xDEAD0000 refl;
}

abbrev start : Shell
start = record {
  line = replicate 128 7;
  line_len = 3;
  screen = record { row = 0; column = 0; color = 7; cells = λ i. 0; out = [] };
}

-- `m`, `x`, backspace, Enter.
abbrev keys : List ℕ
keys = 109 ∷ 120 ∷ 8 ∷ 10 ∷ []

run-edit_all_example : Shows (run world keys start) (
    edit_all world keys
      (record { typed = []; screen = write prompt_text (write welcome start.screen) }))
run-edit_all_example =
    run-edit_all world world-IsUp keys start
      (omega arith, (omega arith, (omega arith, (omega arith, tt))))
      (length-replicate {A = ℕ} 128 7)

run-command_example : Shows (run world (codes "mem" ++ (10 ∷ [])) start) (do
  t ←
      command world
        (codes "mem")
        (putchar 10 (write (codes "mem") (write prompt_text (write welcome start.screen))))
  goes (record { typed = []; screen = write prompt_text t }))
run-command_example =
    run-command world (codes "mem") start world-IsUp
      ((omega arith, refl), ((omega arith, refl), ((omega arith, refl), tt))) (omega arith)
      (length-replicate {A = ℕ} 128 7)
