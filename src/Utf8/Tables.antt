-- ===== src/Utf8/Tables.antt =====
-- Every character of 16 bits on its way through both conversions, from a check of all of them.
use blesk_os_fork.Base.{
  ℕ_discrete, ap, ◌≤◌, ◌≢◌, ◌<◌, arith, ℕ, zero, suc, ◌+◌, ◌*◌, ◌/◌, ◌%◌, ◌≡◌, refl, Bool, true,
  false, ◌&&◌, ◌||◌, not, ltb, ◌==◌, if◌then◌else◌, Option, none, some, get_or, length,
}
use blesk_os_fork.Utf8.{utf_8_width, unicode_char, utf_8_bytes}

-- What comes back of a character: the bit of weight 0x800 is lost from those that take three bytes.
abbrev pub kept : ℕ → ℕ
kept c = if ltb c 0x800 then c else c / 0x1000 * 0x1000 + c % 0x800

is_char : Option ℕ → ℕ → Bool
is_char none c = false
is_char (some d) c = d == c

-- The test of one character.
returns : ℕ → Bool
returns c =
    let bs = utf_8_bytes c in
    let b0 = get_or bs 0 0 in
    c == 0
    || (not (b0 == 0)
        && utf_8_width b0 == length bs
        && is_char (unicode_char b0 (get_or bs 1 0) (get_or bs 2 0)) (kept c))

-- Whether a test passes at `n` values from `from` on.
all_from : (ℕ → Bool) → ℕ → ℕ → Bool
all_from test from zero = true
all_from test from (suc n) = test from && all_from test (from + 1) n

page : ℕ → Bool
page hi = all_from returns (hi * 256) 256

all_pages : all_from page 0 256 ≡ true
unfolding all_from page returns is_char utf_8_bytes utf_8_width unicode_char
all_pages = refl

all_from-at :
    (n from i : ℕ) (test : ℕ → Bool)
    → from ≤ i
    → i < from + n
    → all_from test from n ≡ true
    → test i ≡ true
unfolding all_from
all_from-at zero from i test lo hi h = absurd (omega arith)
all_from-at (suc n) from i test lo hi h = elim (ℕ_discrete from i) [
  | yes e ↦ rw (← e) (ground (arith, h))
  | no ne ↦ all_from-at n (from + 1) i test (omega (arith, ne)) (omega arith) (ground (arith, h))
]

returns_all : (c : ℕ) → c < 0x10000 → returns c ≡ true
unfolding page
returns_all c h =
    let hi : ℕ = c / 256 in
    let p = all_from-at 256 0 hi page (omega arith) (omega arith) all_pages in
    all_from-at 256 (hi * 256) c returns (omega arith) (omega arith) p

is_char_eq : (o : Option ℕ) (c : ℕ) → is_char o c ≡ true → o ≡ some c
unfolding is_char
is_char_eq none c h = absurd (ground (arith, h))
is_char_eq (some d) c h = ap some (ground (arith, h))

-- The bytes of a character start with one that is not 0, the reader moves behind them, and what it
-- writes is the character as far as it is kept.
pub record IsReturned (c b0 b1 b2 n : ℕ) : Type 0 where
  pub first : b0 ≢ 0
  pub width : utf_8_width b0 ≡ n
  pub char : unicode_char b0 b1 b2 ≡ some (kept c)

pub utf_8_bytes-IsReturned :
    (c : ℕ)
    → c < 0x10000
    → c ≢ 0
    → let bs = utf_8_bytes c in
      IsReturned c (get_or bs 0 0) (get_or bs 1 0) (get_or bs 2 0) (length bs)
unfolding returns
utf_8_bytes-IsReturned c h ne =
    let t = returns_all c h in
    record {
      first = ground (arith, t, ne);
      width = ground (arith, t, ne);
      char = is_char_eq _ _ (ground (arith, t, ne));
    }
