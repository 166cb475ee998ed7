-- ===== src/Util/Mem.antt =====
-- util/mem/src/lib.rs: a value that is overwritten with zeros when it is dropped. Memory is the
-- content of each address. A value that owns bytes is the place where they are; the model has it stay
-- there from its creation until it is dropped.
pub mod Laws
use mm2_parity_ethereum.Base.{Bytes, ℕ, zero, suc, ◌+◌, List, [], ◌∷◌, ◌==◌, if◌then◌else◌}

abbrev pub Memory : Type 0
Memory = ℕ → ℕ

-- A slice `&mut [u8]`.
pub record Slice : Type 0 where
  pub start : ℕ
  pub len : ℕ

-- `ptr::write_volatile`
unfoldable pub write_volatile : ℕ → ℕ → Memory → Memory
write_volatile p b memory a = if a == p then b else memory a

-- `for byte_ref in slice { ptr::write_volatile(byte_ref, 0) }`, with the bytes left and the next one.
unfoldable pub write_zeros : ℕ → ℕ → Memory → Memory
unfolding write_volatile
write_zeros zero p memory = memory
write_zeros (suc rounds) p memory = write_zeros rounds (p + 1) (write_volatile p 0 memory)

-- The bytes of a slice.
unfoldable pub read_from : ℕ → ℕ → Memory → Bytes
read_from zero p memory = []
read_from (suc rounds) p memory = memory p ∷ read_from rounds (p + 1) memory

-- `as_mut` of the wrapped value gives the slice of its bytes.
pub record Memzero : Type 0 where
  pub mem : Slice

unfoldable pub from_mem : Slice → Memzero
from_mem mem = record { mem = mem }

-- `Deref`
unfoldable pub deref : Memzero → Memory → Bytes
unfolding read_from
deref m memory = read_from m.mem.len m.mem.start memory

-- `Drop`
unfoldable pub drop_memzero : Memzero → Memory → Memory
unfolding write_zeros
drop_memzero m memory = write_zeros m.mem.len m.mem.start memory
