-- ===== src/Portal/Files/Owner.antt =====
-- Files belong to the user who added them.
use o2ul_portal.Common.{
  String, true, false, ◌≡◌, refl, ◌≢◌, sym, ap, ◌∙◌, arith, eq_iff, ◌==◌, ok, err, not_found,
}
use o2ul_portal.Common.Int.{ℤ}
use o2ul_portal.Store.{Table, IsTable}
use o2ul_portal.Portal.Files.{
  File, FileRecord, to_file_record, create, get_by_id, add_file, get_storage_id, get_file_url,
  remove_file,
}

module _ {S : Type 0} (T : Table FileRecord S) where
  add_file-set :
      (s t : S) (now : ℤ) (user_id : String) (file f : File)
      → add_file T s now user_id file ≡ (ok f, t)
      → (f.id ≡ file.id)
        × (f.user_id ≡ user_id)
        × (f.storage_id ≡ file.storage_id)
        × (T.set s f.id (to_file_record f) ≡ (ok tt, t))
  unfolding add_file create
  add_file-set s t now user_id file f h = (ground arith, ground arith, ground arith, ground arith)

  get_by_id-get :
      (s : S) (id : String) (f : File)
      → T.get s id ≡ ok (to_file_record f)
      → get_by_id T s id ≡ ok f
  unfolding get_by_id
  get_by_id-get s id f h = rw (h, get_by_id) refl

  -- A file that was added is found by its owner, under its id; anybody else is told that there is
  -- no such file, and cannot remove it.
  pub add_file-owner :
      IsTable T
      → (s t : S) (now : ℤ) (user_id other : String) (file f : File) → user_id ≢ other
      → add_file T s now user_id file ≡ (ok f, t)
      → (get_storage_id T t user_id file.id ≡ ok file.storage_id)
        × (get_storage_id T t other file.id ≡ err not_found)
        × (get_file_url T t other file.id ≡ err not_found)
        × (remove_file T t other file.id ≡ (err not_found, t))
  unfolding get_storage_id get_file_url remove_file
  add_file-owner law s t now user_id other file f ne h =
      let (named, owner, place, set) = add_file-set s t now user_id file f h in
      let found : get_by_id T t file.id ≡ ok f =
        ap (get_by_id T t) (sym named)
        ∙ get_by_id-get t f.id f (law.set_get s t f.id (to_file_record f) set) in
      let mine : (f.user_id == user_id) ≡ true = (eq_iff f.user_id user_id).1 owner in
      let theirs : (f.user_id == other) ≡ false = ground (arith, eq_iff f.user_id other) in
      (
        rw (found, get_storage_id) (rw mine (ap ok place)),
        rw (found, get_storage_id) (rw theirs refl),
        rw (found, get_file_url, get_storage_id) (rw theirs refl),
        rw (found, remove_file) (rw theirs refl),
      )
