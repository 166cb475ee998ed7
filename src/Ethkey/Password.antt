-- ===== src/Ethkey/Password.antt =====
-- ethkey/src/password.rs: a password owns the buffer of a string. The allocator is a parameter: `place`
-- is where a new buffer is.
pub mod Buffer
pub mod Life
pub mod Contents
use Prim.Native.String.{String}
use mm2_parity_ethereum.Base.{Bytes, ℕ, ◌+◌, List, [], ◌∷◌, length}
use mm2_parity_ethereum.Util.Mem.{Memory, Slice, read_from, write_volatile, write_zeros}

-- `Password(String)`: the buffer of the string, without its spare capacity.
pub record Password : Type 0 where
  pub buffer : Slice

-- `From<String>` takes the buffer over.
unfoldable pub from_string : Slice → Password
from_string buffer = record { buffer = buffer }

-- Bytes written one after the other.
unfoldable pub write_bytes : Bytes → ℕ → Memory → Memory
unfolding write_volatile
write_bytes [] p memory = memory
write_bytes (b ∷ bs) p memory = write_bytes bs (p + 1) (write_volatile p b memory)

-- `From<&str>`: `String::from` copies the text into a new buffer.
unfoldable pub from_text : Bytes → ℕ → Memory → Password × Memory
unfolding write_bytes from_string
from_text text place memory =
    (from_string (record { start = place; len = length text }), write_bytes text place memory)

-- `as_bytes`, and `as_str` as its bytes.
unfoldable pub as_bytes : Password → Memory → Bytes
unfolding read_from
as_bytes p memory = read_from p.buffer.len p.buffer.start memory

-- The derived `Clone` clones the string.
unfoldable pub clone_password : Password → ℕ → Memory → Password × Memory
unfolding from_text as_bytes
clone_password p place memory = from_text (as_bytes p memory) place memory

-- `Debug`
unfoldable pub debug : Password → String
debug p = "Password(******)"

-- `Drop`
unfoldable pub drop_password : Password → Memory → Memory
unfolding write_zeros
drop_password p memory = write_zeros p.buffer.len p.buffer.start memory
