-- ===== src/Tests/Portal.antt =====
-- Presence and files over one-row tables.
use o2ul_portal.Common.{◌≡◌, refl, none, Option, ok, err, not_found}
use o2ul_portal.Common.Int.{pos}
use o2ul_portal.Store.{Table, IsTable}
use o2ul_portal.Portal.Files
use o2ul_portal.Portal.Files.{File, FileRecord, add_file, get_storage_id, get_file_url, remove_file}
use o2ul_portal.Portal.Files.Owner.{add_file-owner}
use o2ul_portal.Tests.OneRow.{one_set, one_row, one_row-IsTable}
use o2ul_portal.Tests.Profiles.{any_row, a_b}

abbrev files : Table FileRecord (Option FileRecord)
files = one_row (λ r. r.file_key) any_row

files-IsTable : IsTable files
files-IsTable = one_row-IsTable (λ r. r.file_key) any_row

abbrev upload : File
upload = record {
  id = "f";
  user_id = "";
  name = "n";
  content_type = "image/png";
  storage_id = "s";
  size = pos 3;
  md5_hash = "m";
  created_at = pos 0;
}

abbrev uploaded : File
uploaded = record upload { user_id = "a"; created_at = pos 9 }

abbrev file_state : Option FileRecord
file_state = (add_file files none (pos 9) "a" upload).1

adds : add_file files none (pos 9) "a" upload ≡ (ok uploaded, file_state)
unfolding add_file Files.create one_set
adds = refl

add_file-owner_example :
    (get_storage_id files file_state "a" "f" ≡ ok "s")
    × (get_storage_id files file_state "b" "f" ≡ err not_found)
    × (get_file_url files file_state "b" "f" ≡ err not_found)
    × (remove_file files file_state "b" "f" ≡ (err not_found, file_state))
add_file-owner_example =
    add_file-owner files files-IsTable none file_state (pos 9) "a" "b" upload uploaded a_b adds
