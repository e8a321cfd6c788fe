-- ===== src/Gdt/Bytes.antt =====
-- `&` and `|` on numbers that are given as fields of four bytes.
use simply_os.Base.{ℕ, ◌+◌, ◌*◌, ◌<◌, ◌≡◌, refl, ◌∙◌, ap, arith, ◌==◌, ltb, ltb→lt, true, bit_or}
use simply_os.Base.Bits.{bit_or_split}
use simply_os.Base.Loops.{every, every_lookup}

abbrev pub word : ℕ → ℕ → ℕ → ℕ → ℕ
word a b c d = ((a * 256 + b) * 256 + c) * 256 + d

pub bit_or-word :
    (a b c d a' b' c' d' : ℕ)
    → b < 256
    → c < 256
    → d < 256
    → b' < 256
    → c' < 256
    → d' < 256
    → bit_or (word a b c d) (word a' b' c' d')
      ≡ word (bit_or a a') (bit_or b b') (bit_or c c') (bit_or d d')
bit_or-word a b c d a' b' c' d' hb hc hd hb' hc' hd' =
    bit_or_split 8 _ d _ d' hd hd'
    ∙ ap (λ t. t * 256 + bit_or d d')
        (bit_or_split 8 _ c _ c' hc hc'
          ∙ ap (λ t. t * 256 + bit_or c c') (bit_or_split 8 a b a' b' hb hb'))

abbrev pub Fields : Type 0
Fields = ℕ × ℕ × ℕ × ℕ

abbrev pub number : Fields → ℕ
number (a, b, c, d) = word a b c d

-- The three lower fields fit.
abbrev pub Fits : Fields → Type 0
Fits (a, b, c, d) = (b < 256) × (c < 256) × (d < 256)

abbrev pub Or : Fields → Fields → Fields → Type 0
Or (a, b, c, d) (a', b', c', d') (p, q, r, t) =
    (bit_or a a' ≡ p) × (bit_or b b' ≡ q) × (bit_or c c' ≡ r) × (bit_or d d' ≡ t)

-- The same, for two numbers whose fields are known.
pub bit_or-number :
    (v w r : Fields) {x y : ℕ}
    → x ≡ number v
    → y ≡ number w
    → Fits v
    → Fits w
    → Or v w r
    → bit_or x y ≡ number r
bit_or-number (a, b, c, d) (a', b', c', d') r ex ey (hb, hc, hd) (hb', hc', hd') (ep, eq, er, et) =
    rw (ex, ey, ← ep, ← eq, ← er, ← et) (bit_or-word a b c d a' b' c' d' hb hc hd hb' hc' hd')

all_self : every 256 (λ b. bit_or b b == b) ≡ true
unfolding every
all_self = refl

-- A byte with itself.
pub bit_or_self : (b : ℕ) → b < 256 → bit_or b b ≡ b
bit_or_self b h = let e = every_lookup 256 _ b all_self h in ground arith

all_bytes : every 256 (λ a. every 256 (λ b. ltb (bit_or a b) 256)) ≡ true
unfolding every
all_bytes = refl

pub bit_or-byte : (a b : ℕ) → a < 256 → b < 256 → bit_or a b < 256
bit_or-byte a b ha hb = ltb→lt _ _ (every_lookup 256 _ b (every_lookup 256 _ a all_bytes ha) hb)
