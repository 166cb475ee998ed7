-- ===== src/Tests/Passwords.antt =====
-- util/mem/ and ethkey/src/password.rs: runs, and the theorems at concrete inputs.
use mm2_parity_ethereum.Base.{Bytes, ◌≡◌, refl, [], ◌∷◌, arith}
use mm2_parity_ethereum.Util.Mem.{Memory, Memzero, deref, drop_memzero}
use mm2_parity_ethereum.Util.Mem.Laws.{drop_memzero_lem}
use mm2_parity_ethereum.Ethkey.Password.{
  Password, from_text, clone_password, drop_password, as_bytes,
}
use mm2_parity_ethereum.Ethkey.Password.Life.{
  State, Step, make, copy, forget, here, next, IsClean, Reach-IsClean,
}
use mm2_parity_ethereum.Ethkey.Password.Contents.{contents, Change, Step-Change}

abbrev counting : Memory
counting a = a

abbrev value : Memzero
value = record { mem = record { start = 4; len = 3 } }

drop_memzero_lem_example :
    (deref value (drop_memzero value counting) ≡ 0 ∷ 0 ∷ 0 ∷ [])
    × (drop_memzero value counting 7 ≡ 7)
drop_memzero_lem_example = drop_memzero_lem value counting 7 (omega arith)

abbrev text : Bytes
text = 0x68 ∷ 0x69 ∷ []

-- Nothing is made yet; a password is made at 100, copied to 200, and the first one is dropped.
abbrev no_password : State
no_password = record { memory = λ a. 0; passwords = [] }

abbrev made : State
made =
    let (p, memory) = from_text text 100 no_password.memory in
    record { memory = memory; passwords = p ∷ [] }

abbrev first : Password
first = record { buffer = record { start = 100; len = 2 } }

abbrev copied : State
copied =
    let (p, memory) = clone_password first 200 made.memory in
    record { memory = memory; passwords = p ∷ made.passwords }

abbrev second : Password
second = record { buffer = record { start = 200; len = 2 } }

abbrev dropped : State
dropped = record { memory = drop_password first copied.memory; passwords = second ∷ [] }

no_password-IsClean : IsClean no_password
no_password-IsClean = record { apart = tt; zeros = λ a out. refl }

made-Step : Step no_password made
made-Step = make text 100 tt refl

copied-Step : Step made copied
unfolding from_text
copied-Step = copy [] [] first 200 refl (omega arith) refl

dropped-Step : Step copied dropped
unfolding from_text clone_password
dropped-Step = forget (second ∷ []) [] first refl refl

Reach-IsClean_example : IsClean dropped
Reach-IsClean_example =
    Reach-IsClean no_password dropped no_password-IsClean
      (next (next (next here made-Step) copied-Step) dropped-Step)

copied-IsClean : IsClean copied
copied-IsClean =
    Reach-IsClean no_password copied no_password-IsClean (next (next here made-Step) copied-Step)

Step-Change_example : Change (contents copied) (contents dropped)
Step-Change_example = Step-Change copied dropped copied-IsClean dropped-Step

second_still_there : as_bytes second dropped.memory ≡ text
unfolding as_bytes drop_password from_text clone_password
second_still_there = refl
