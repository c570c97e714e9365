-- ===== src/Tests/Store.antt =====
-- The deferred store of src/deferred.c at work.
use legion_voice_mixer.Prelude.{
  ◌≡◌, ◌⊎◌, refl, true, false, List, [], ◌∷◌, CString, codes, str_eq, arith,
}
use legion_voice_mixer.Columns.{op_add, op_remove, op_replace, Column, col_has, channel_update}
use legion_voice_mixer.Columns.Laws.{Short}
use legion_voice_mixer.Deferred.{init, get, find_idx, put}
use legion_voice_mixer.Deferred.Put.{IsValid}
use legion_voice_mixer.Deferred.Contract.{column, Evicted, put-column, put_other}
use legion_voice_mixer.Deferred.History.{
  Deposit, deposits, own_column, deposits-own_column, deposits-IsValid,
}

abbrev alice : CString
alice = codes "alice"

abbrev bob : CString
bob = codes "bob"

abbrev two : Column
two = codes "x" ∷ codes "y" ∷ codes "x" ∷ []

abbrev one : Column
one = codes "y" ∷ []

two-Short : Short two
two-Short = omega arith

add_then_has : col_has (channel_update true op_add two one) (codes "x") ≡ true
unfolding channel_update col_has str_eq
add_then_has = refl

-- A store that holds columns for two listeners.
abbrev history : List Deposit
history =
    record { alloc = true; listener = alice; op = op_replace; src = two; is_mute = false }
    ∷ record { alloc = true; listener = bob; op = op_add; src = one; is_mute = true }
    ∷ record { alloc = true; listener = alice; op = op_remove; src = one; is_mute = false }
    ∷ []

init-IsValid : IsValid init.entries
unfolding init
init-IsValid = record { unique = tt; bounded = omega arith; held = tt }

-- The removal of "y" from alice's columns leaves "x".
alice-column : column alice false (deposits init history) ≡ codes "x" ∷ []
unfolding deposits put get find_idx init str_eq channel_update
alice-column = refl

deposits-own_column_example :
    column alice false (deposits init history)
    ≡ own_column alice false (column alice false init) history
unfolding init
deposits-own_column_example =
    deposits-own_column init history alice false (omega arith) init-IsValid (omega arith)

put-column_example :
    column alice true (put true init alice op_add two true)
    ≡ channel_update true op_add two (column alice true init)
put-column_example = put-column true op_add two true init alice (omega arith) true init-IsValid

put_other_example :
    (get (put true init alice op_add two true) bob ≡ get init bob)
    ⊎ Evicted init bob (get (put true init alice op_add two true) bob)
put_other_example =
    put_other true op_add two true init alice (omega arith) bob (λ e. ground (arith, e))
      init-IsValid

deposits-IsValid_example : IsValid (deposits init history).entries
deposits-IsValid_example = deposits-IsValid init history (omega arith) init-IsValid
