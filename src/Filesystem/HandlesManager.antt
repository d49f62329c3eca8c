-- ===== src/Filesystem/HandlesManager.antt =====
-- `kernel/filesystem/handles_manager.cpp` and `handles_manager.h`: the table of a process's handles,
-- and the two lists that own the descriptions. A description is named by its address, 0 being the
-- null pointer. The lock is left out. `none` is a failed ASSERT, or an index behind the table.
pub mod Alive
pub mod Change
pub mod Remove
mod Tests
use cyan_oskernel.Prelude.{
  ℕ, ◌+◌, ◌-◌, Bool, true, false, not, Option, none, some, List, [], ◌∷◌, ◌++◌, leb, ◌==◌,
  if◌then◌else◌, length, get_elem?, set, ◌>>=◌, ◌>>◌, assert,
}

pub data HandleType : Type 0 where
  invalid file_description process_description : HandleType

abbrev pub same_type : HandleType → HandleType → Bool
same_type invalid invalid = true
same_type file_description file_description = true
same_type process_description process_description = true
same_type _ _ = false

-- The pointers to the two kinds of descriptions are a union.
pub record HandleEntry : Type 0 where
  pub type : HandleType
  pub description : ℕ

pub record HandlesManager : Type 0 where
  pub handle_table : List HandleEntry
  pub file_description_table : List ℕ
  pub process_description_table : List ℕ

unfoldable pub construct : HandlesManager
construct = record {
  handle_table = [];
  file_description_table = [];
  process_description_table = [];
}

-- `List::remove_if` of the descriptions at an address.
unfoldable pub remove_if : ℕ → List ℕ → List ℕ
remove_if p [] = []
remove_if p (x ∷ xs) = if x == p then remove_if p xs else x ∷ remove_if p xs

-- The two `add_handle`.
unfoldable pub add_file : ℕ → HandlesManager → ℕ × HandlesManager
add_file new_fd m =
    let entry : HandleEntry = record { type = file_description; description = new_fd } in
    let table = m.handle_table ++ entry ∷ [] in
    (
      length table - 1,
      record m {
        handle_table = table;
        file_description_table = m.file_description_table ++ new_fd ∷ [];
      },
    )

unfoldable pub add_process : ℕ → HandlesManager → ℕ × HandlesManager
add_process new_fp m =
    let entry : HandleEntry = record { type = process_description; description = new_fp } in
    let table = m.handle_table ++ entry ∷ [] in
    (
      length table - 1,
      record m {
        handle_table = table;
        process_description_table = m.process_description_table ++ new_fp ∷ [];
      },
    )

-- The `switch` of `remove_handle`.
unfoldable pub remove_description : HandleEntry → HandlesManager → Option HandlesManager
unfolding remove_if
remove_description e m = elim e.type [
  | file_description ↦
      some (record m { file_description_table = remove_if e.description m.file_description_table })
  | process_description ↦
      some (record m {
        process_description_table = remove_if e.description m.process_description_table;
      })
  | invalid ↦ none
]

unfoldable pub remove_handle : ℕ → HandlesManager → Option HandlesManager
unfolding remove_description
remove_handle handle m = do
  e ← get_elem? m.handle_table handle
  assert (not (e.description == 0))
  assert (not (same_type e.type invalid))
  m' ← remove_description e m
  some (record m' { handle_table = set m'.handle_table handle (record e { type = invalid }) })

unfoldable pub get_file_description : ℕ → HandlesManager → Option ℕ
get_file_description handle m = do
  e ← get_elem? m.handle_table handle
  assert (not (e.description == 0))
  assert (same_type e.type file_description)
  some e.description

unfoldable pub get_process_description : ℕ → HandlesManager → Option ℕ
get_process_description handle m = do
  e ← get_elem? m.handle_table handle
  assert (not (e.description == 0))
  assert (same_type e.type process_description)
  some e.description

unfoldable pub check_handle : ℕ → HandlesManager → Option HandleType
check_handle handle m =
    if leb (length m.handle_table) handle
    then some invalid
    else (get_elem? m.handle_table handle >>= λ e. some e.type)
