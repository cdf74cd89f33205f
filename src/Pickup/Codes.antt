-- ===== src/Pickup/Codes.antt =====
-- The text of a pickup code determines the channel and the number.
use Prim.Native.Char.{code}
use Prim.Native.String
use Prim.Native.String.append
use ling_dian.Prelude.{ℕ, ◌+◌, ◌≤◌, String, ◌≡◌, sym, ap, ◌∙◌, arith, if◌then◌else◌}
use ling_dian.Prelude.Equality.{◌==◌, nat_eq}
use ling_dian.Prelude.Decimal.{
  to_string, pad_start, read_from, read-pad_start, size, size-pad_start,
}
use ling_dian.Schema.OrdersEnums.{OrderSource}
use ling_dian.Pickup.{prefix, width, maximum, code_text}

-- What stands behind the dash.
after_dash : String → String
after_dash String.[] = String.[]
after_dash (String.◌∷◌ c s) = let rest = after_dash s in if code c == b'-' then s else rest

first_code : String → ℕ
first_code String.[] = 0
first_code (String.◌∷◌ c s) = code c

channel_code : OrderSource → ℕ
channel_code OrderSource.miniapp = b'U'
channel_code OrderSource.meituan_waimai = b'M'
channel_code OrderSource.jd_daojia = b'J'
channel_code OrderSource.pos = b'S'
channel_code OrderSource.manual = b'A'

after_dash-prefix :
    (source : OrderSource) (s : String) → after_dash (String.◌++◌ (prefix source) s) ≡ s
unfolding after_dash
after_dash-prefix OrderSource.miniapp s = rw (append.cons, append.cons, append.nil)
after_dash-prefix OrderSource.meituan_waimai s =
    rw (append.cons, append.cons, append.cons, append.nil)
after_dash-prefix OrderSource.jd_daojia s = rw (append.cons, append.cons, append.cons, append.nil)
after_dash-prefix OrderSource.pos s = rw (append.cons, append.cons, append.nil)
after_dash-prefix OrderSource.manual s = rw (append.cons, append.cons, append.nil)

first_code-prefix :
    (source : OrderSource) (s : String)
    → first_code (String.◌++◌ (prefix source) s) ≡ channel_code source
unfolding first_code channel_code
first_code-prefix OrderSource.miniapp s = rw append.cons
first_code-prefix _ s = rw append.cons

channel_code-injective : (a b : OrderSource) → channel_code a ≡ channel_code b → a ≡ b
unfolding channel_code
channel_code-injective a b h = ground arith

size-prefix :
    (source : OrderSource) (s : String)
    → size (String.◌++◌ (prefix source) s) ≡ size (prefix source) + size s
size-prefix OrderSource.miniapp s = rw (append.cons, append.cons, append.nil) (omega arith)
size-prefix OrderSource.meituan_waimai s =
    rw (append.cons, append.cons, append.cons, append.nil) (omega arith)
size-prefix OrderSource.jd_daojia s =
    rw (append.cons, append.cons, append.cons, append.nil) (omega arith)
size-prefix OrderSource.pos s = rw (append.cons, append.cons, append.nil) (omega arith)
size-prefix OrderSource.manual s = rw (append.cons, append.cons, append.nil) (omega arith)

-- The number that a code was issued for.
unfoldable pub sequence_of : String → ℕ
unfolding after_dash
sequence_of s = read_from 0 (after_dash s)

-- The number is read back from the code, whatever the channel.
pub sequence_of-code_text : (source : OrderSource) (n : ℕ) → sequence_of (code_text source n) ≡ n
unfolding sequence_of code_text
sequence_of-code_text source n =
    ap (read_from 0) (after_dash-prefix source (pad_start (width source) (to_string n)))
    ∙ read-pad_start (width source) n

-- Two codes are the same text only if they are of the same channel and the same number, also where
-- a number has outgrown its width.
pub code_text-injective :
    (a b : OrderSource) (m n : ℕ) → code_text a m ≡ code_text b n → (a ≡ b) × (m ≡ n)
unfolding code_text
code_text-injective a b m n h = (
  channel_code-injective a b (
      sym (first_code-prefix a (pad_start (width a) (to_string m)))
      ∙ ap first_code h
      ∙ first_code-prefix b (pad_start (width b) (to_string n))),
  sym (sequence_of-code_text a m) ∙ ap sequence_of h ∙ sequence_of-code_text b n,
)

size_digits :
    (source : OrderSource) (n : ℕ)
    → n ≤ maximum source
    → size (pad_start (width source) (to_string n)) ≡ width source
size_digits OrderSource.miniapp n h = size-pad_start 3 n (omega arith)
size_digits OrderSource.meituan_waimai n h = size-pad_start 4 n (omega arith)
size_digits OrderSource.jd_daojia n h = size-pad_start 5 n (omega arith)
size_digits OrderSource.pos n h = size-pad_start 3 n (omega arith)
size_digits OrderSource.manual n h = size-pad_start 4 n (omega arith)

-- Up to the capacity every code of a channel has the same length: its prefix and its width.
pub size-code_text :
    (source : OrderSource) (n : ℕ)
    → n ≤ maximum source
    → size (code_text source n) ≡ size (prefix source) + width source
unfolding code_text
size-code_text source n h =
    size-prefix source (pad_start (width source) (to_string n))
    ∙ ap (λ k. size (prefix source) + k) (size_digits source n h)
