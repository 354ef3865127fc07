-- ===== src/Portal/Files.antt =====
-- `O2ULFilesService` (internal/application/o2ul_files_service.go), `File`
-- (internal/domain/o2ul_files/file.go), and `StrataO2ULFilesRepository`
-- (internal/infrastructure/db/o2ul_files_strata.go).
use o2ul_portal.Common.{
  ℕ, String, Bool, true, false, not, some, List, [], ◌∷◌, ◌==◌, concat, if◌then◌else◌, Result, ok,
  err, not_found, fail_if, ◌>>◌,
}
use o2ul_portal.Common.Int.{ℤ, pos, ◌+ℤ◌, eq_ℤ}
use o2ul_portal.Store.{Table, Query, text, query_all, missing_as}
pub mod Owner

pub record File : Type 0 where
  pub id : String
  pub user_id : String
  pub name : String
  pub content_type : String
  pub storage_id : String
  pub size : ℤ
  pub md5_hash : String
  pub created_at : ℤ

pub record FileRecord : Type 0 where
  pub file_key : String
  pub user_id : String
  pub name : String
  pub content_type : String
  pub storage_id : String
  pub size : ℤ
  pub md5_hash : String
  pub created_at : ℤ

abbrev pub to_file_record : File → FileRecord
to_file_record f = record {
  file_key = f.id;
  user_id = f.user_id;
  name = f.name;
  content_type = f.content_type;
  storage_id = f.storage_id;
  size = f.size;
  md5_hash = f.md5_hash;
  created_at = f.created_at;
}

abbrev pub to_file : FileRecord → File
to_file r = record {
  id = r.file_key;
  user_id = r.user_id;
  name = r.name;
  content_type = r.content_type;
  storage_id = r.storage_id;
  size = r.size;
  md5_hash = r.md5_hash;
  created_at = r.created_at;
}

abbrev pub md5_query : String → String → Query
md5_query user_id md5_hash = record query_all {
  condition = "user_id = $1 AND md5_hash = $2";
  arguments = text user_id ∷ text md5_hash ∷ [];
  limit = some (pos 1);
}

pub record UploadUrl : Type 0 where
  pub url : String
  pub expires_at : ℤ

-- `print_millis` is `%d` of an int64.
abbrev pub generate_upload_url : (ℤ → String) → ℤ → String → UploadUrl
generate_upload_url print_millis now user_id = record {
  url = concat "/api/v1/o2ul/files/upload/" (concat user_id (concat "/" (print_millis now)));
  expires_at = now +ℤ pos 600000;
}

module _ {S : Type 0} (T : Table FileRecord S) where
  unfoldable pub create : S → File → Result File × S
  create s file =
      let (written, t) = T.set s file.id (to_file_record file) in
      elim written [ ok u ↦ (ok file, t) | err e ↦ (err e, t) ]

  unfoldable pub get_by_id : S → String → Result File
  get_by_id s id = elim (missing_as not_found (T.get s id)) [
    | err e ↦ err e
    | ok r ↦ ok (to_file r)
  ]

  unfoldable pub get_by_user_and_md5 : S → String → String → Result File
  get_by_user_and_md5 s user_id md5_hash = elim (T.search s (md5_query user_id md5_hash)) [
    | err e ↦ err e
    | ok [] ↦ err not_found
    | ok (r ∷ rs) ↦ ok (to_file r)
  ]

  unfoldable pub add_file : S → ℤ → String → File → Result File × S
  add_file s now user_id file = create s (record file {
    user_id = user_id;
    created_at = if eq_ℤ file.created_at (pos 0) then now else file.created_at;
  })

  unfoldable pub get_storage_id : S → String → String → Result String
  get_storage_id s user_id id = elim (get_by_id s id) [
    | err e ↦ err e
    | ok file ↦ if not (file.user_id == user_id) then err not_found else ok file.storage_id
  ]

  unfoldable pub get_file_url : S → String → String → Result String
  get_file_url s user_id id = elim (get_storage_id s user_id id) [
    | err e ↦ err e
    | ok storage_id ↦ ok (concat "/api/v1/o2ul/files/storage/" storage_id)
  ]

  unfoldable pub remove_file : S → String → String → Result (Unit {0}) × S
  remove_file s user_id id = elim (get_by_id s id) [
    | err e ↦ (err e, s)
    | ok file ↦ if not (file.user_id == user_id) then (err not_found, s) else T.delete s id
  ]
