-- ===== src/Filesystem/HandlesManager/Tests.antt =====
-- Adding, using and removing handles, at concrete tables.
use cyan_oskernel.Prelude.{ℕ, ◌≡◌, refl, true, some, [], ◌∷◌, arith}
use cyan_oskernel.Stdlib.Links.{mem}
use cyan_oskernel.Filesystem.HandlesManager.{
  file_description, process_description, HandlesManager, construct, add_file, add_process,
  remove_handle, get_file_description, check_handle,
}
use cyan_oskernel.Filesystem.HandlesManager.Alive.{
  IsValid, construct-IsValid, get_file_description-Owned,
}
use cyan_oskernel.Filesystem.HandlesManager.Change.{
  AddedHandle, add_file-AddedHandle, add_process-AddedHandle,
}
use cyan_oskernel.Filesystem.HandlesManager.Remove.{Removed, remove_handle-Removed}

add_file-AddedHandle_example :
    AddedHandle file_description 0x500 construct
      (add_file 0x500 construct).0
      (add_file 0x500 construct).1
unfolding construct mem
add_file-AddedHandle_example =
    add_file-AddedHandle construct construct-IsValid 0x500 (omega arith) refl

-- A file and a process have a handle each.
abbrev two_handles : HandlesManager
two_handles = record {
  handle_table =
      record { type = file_description; description = 0x500 }
      ∷ record { type = process_description; description = 0x600 }
      ∷ [];
  file_description_table = 0x500 ∷ [];
  process_description_table = 0x600 ∷ [];
}

two_handles-IsValid : IsValid two_handles
unfolding construct mem add_file add_process
two_handles-IsValid =
    (add_process-AddedHandle (add_file 0x500 construct).1
      (add_file-AddedHandle construct construct-IsValid 0x500 (omega arith) refl).valid 0x600
      (omega arith) refl).valid

get_file_description-Owned_example :
    (p : ℕ) × (get_file_description 0 two_handles ≡ some p)
    × (mem p two_handles.file_description_table ≡ true)
unfolding check_handle
get_file_description-Owned_example =
    get_file_description-Owned two_handles 0 two_handles-IsValid refl

remove_handle-Removed_example :
    (m' : HandlesManager) × (remove_handle 0 two_handles ≡ some m')
    × Removed 0 (record { type = file_description; description = 0x500 }) two_handles m'
remove_handle-Removed_example =
    remove_handle-Removed two_handles two_handles-IsValid 0
      (record { type = file_description; description = 0x500 }) refl refl
