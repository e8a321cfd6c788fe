-- ===== src/Libc/Strings/Tests.antt =====
-- A few bytes of memory.
use simply_os.Base.{◌+◌, ltb, if◌then◌else◌}
use simply_os.Libc.Strings.{Bytes, memmove}
use simply_os.Libc.Strings.Copy.{Copied, memmove-Copied}

-- The word "abc", and then zeros.
abbrev letters : Bytes
letters x = if ltb x 3 then 97 + x else 0

memmove-Copied_example : Copied 1 0 3 letters (memmove 1 0 3 letters)
memmove-Copied_example = memmove-Copied 1 0 3 letters
