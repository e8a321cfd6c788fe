-- ===== src/Shell.antt =====
-- kernel/arch/i386/shell/shell.c: the line that is typed and the commands. The characters that
-- keyboard_getchar gives are a list; at its end the shell waits for the next one.
pub mod Line
pub mod Command
pub mod Session
mod Tests
use simply_os.Base.{
  ℕ, ◌+◌, ◌-◌, ◌&&◌, ◌||◌, Bool, true, false, not, List, [], ◌∷◌, ltb, leb, ◌==◌, if◌then◌else◌, u8,
  get_or, set, Option, some, none,
}
use simply_os.Base.Text.{codes}
use simply_os.Libc.Print.{word, text}
use simply_os.Terminal.{Terminal, write, putchar}
use simply_os.Console.{Outcome, goes, halts, strays, ◌>>=◌, say}
use simply_os.Pmm.{free_frames, total_frames, used_frames}
use simply_os.Paging.{load}
use simply_os.Paging
use simply_os.Interrupts.Irq.{Registers}
use simply_os.Fault.{exception_handler}

abbrev pub line_max : ℕ
line_max = 128

-- `shell_line`, `shell_line_len`, and the screen.
pub record Shell : Type 0 where
  pub line : List ℕ
  pub line_len : ℕ
  pub screen : Terminal

-- What the commands look at: the frames and page tables, what kheap_used_bytes and kheap_total_bytes
-- give, and the registers that an exception saves.
pub record World : Type 0 where
  pub machine : Paging.Machine
  pub heap_used : ℕ
  pub heap_total : ℕ
  pub saved : Registers

abbrev pub is_printable : ℕ → Bool
is_printable c = u8 c == 9 || leb 32 (u8 c) && leb (u8 c) 126

-- Strings are the bytes from the pointer on; a NUL stands behind the last byte that is given.
pub streq : List ℕ → List ℕ → Bool
streq [] [] = true
streq [] (d ∷ ds) = d == 0
streq (c ∷ cs) [] = c == 0
streq (c ∷ cs) (d ∷ ds) =
    let rest = streq cs ds in
    if not (c == 0) && not (d == 0) then if not (c == d) then false else rest else c == d

-- The characters before the NUL, which `%s` shows.
pub c_string : List ℕ → List ℕ
c_string [] = []
c_string (c ∷ cs) = let rest = c_string cs in if c == 0 then [] else c ∷ rest

abbrev pub prompt_text : List ℕ
prompt_text = codes "myos> "

pub prompt : Shell → Shell
prompt s = record s { screen = write prompt_text s.screen }

pub reset_line : Shell → Shell
reset_line s = record s { line_len = 0; line = set s.line 0 0 }

pub cmd_help : Terminal → Outcome Terminal
cmd_help t = do
  t ← say (codes "Commands:\n") [] t
  t ← say (codes "  help   - this list\n") [] t
  t ← say (codes "  mem    - PMM and kheap statistics\n") [] t
  say (codes "  pfault - trigger page fault (halts kernel)\n") [] t

pub cmd_mem : World → Terminal → Outcome Terminal
cmd_mem w t = do
  let p = w.machine.pmm
  t ←
      say (codes "PMM:  %u free / %u frames (%u used)\n")
        (word (free_frames p) ∷ word (total_frames p) ∷ word (used_frames p) ∷ []) t
  say (codes "Kheap: %u used / %u bytes mapped\n") (word w.heap_used ∷ word w.heap_total ∷ []) t

-- The read of the address: a page fault, of vector 14, or a value and then the halt.
pub after_read : World → Option ℕ → Terminal → Outcome Terminal
after_read w none t = exception_handler w.machine 0xDEAD0000 (record w.saved { int_no = 14 }) t
after_read w (some v) t = halts t

pub cmd_pfault : World → Terminal → Outcome Terminal
cmd_pfault w t = do
  t ← say (codes "Triggering page fault at 0xDEAD0000...\n") [] t
  after_read w (load w.machine 0xDEAD0000) t

pub execute : World → List ℕ → Terminal → Outcome Terminal
execute w line t =
    let other : Outcome Terminal = (do
      t ← if streq line (codes "pfault") then cmd_pfault w t else goes t
      t ← say (codes "Unknown command: %s\n") (text (c_string line) ∷ []) t
      say (codes "Type 'help' for a list of commands.\n") [] t) in
    if get_or line 0 0 == 0
    then goes t
    else if streq line (codes "help")
    then cmd_help t
    else if streq line (codes "mem")
    then cmd_mem w t
    else other

-- One round of the inner loop; after Enter also the prompt of the next round of the outer one.
pub key : World → ℕ → Shell → Outcome Shell
key w c s =
    let ended = set s.line s.line_len 0 in
    let enter : Outcome Shell = (do
      t ← execute w ended (putchar 10 s.screen)
      goes (prompt (reset_line (record s { line = ended; screen = t })))) in
    let erased : Shell = record {
      line = set s.line (s.line_len - 1) 0;
      line_len = s.line_len - 1;
      screen = putchar 8 s.screen;
    } in
    let added : Shell = record {
      line = set (set s.line s.line_len c) (s.line_len + 1) 0;
      line_len = s.line_len + 1;
      screen = putchar c s.screen;
    } in
    if c == 10
    then enter
    else if c == 8
    then goes (if ltb 0 s.line_len then erased else s)
    else if not (is_printable c)
    then goes s
    else if leb (line_max - 1) s.line_len
    then goes s
    else goes added

pub keys_loop : World → List ℕ → Shell → Outcome Shell
keys_loop w [] s = goes s
keys_loop w (c ∷ cs) s = do next ← key w c s; keys_loop w cs next

abbrev pub welcome : List ℕ
welcome = codes "My-OS shell. Type 'help' for commands.\n"

pub run : World → List ℕ → Shell → Outcome Shell
run w cs s = keys_loop w cs (prompt (reset_line (record s { screen = write welcome s.screen })))
