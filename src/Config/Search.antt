-- ===== src/Config/Search.antt =====
-- The search for the file with the environment. `stat` is os.Stat, which tells whether a path is a
-- directory if there is something; `join` and `parent` are filepath.Join and filepath.Dir.
use o2ul_portal.Common.{
  ℕ, zero, suc, ◌<◌, String, Bool, false, not, ◌&&◌, ◌≡◌, ◌≢◌, Option, none, some, List, [], ◌∷◌,
  ◌==◌, ◌⊎◌, if◌then◌else◌, Result, ok, err,
}

module _ (stat : String → Option Bool) (join : String → String → String)
    (parent : String → String) where
  unfoldable pub file_exists : String → Bool
  file_exists path = elim (stat path) [ none ↦ false | some is_dir ↦ not is_dir ]

  unfoldable pub pick_env_file_in_dir : String → String
  pick_env_file_in_dir dir =
      if file_exists (join dir ".env.local")
      then join dir ".env.local"
      else if file_exists (join dir ".env")
      then join dir ".env"
      else ""

  -- The loop, on fuel: `none` if it has not ended.
  unfoldable pub search_upward_for_env : ℕ → String → Option String
  search_upward_for_env zero dir = none
  search_upward_for_env (suc fuel) dir =
      let rest = search_upward_for_env fuel (parent dir) in
      if not (pick_env_file_in_dir dir == "")
      then some (pick_env_file_in_dir dir)
      else if parent dir == dir
      then some ""
      else rest

  -- The loop over the start directories, with rounds of fuel for each.
  unfoldable pub search_starts : ℕ → List String → Option String
  search_starts fuel [] = some ""
  search_starts fuel (start ∷ starts) =
      let rest = search_starts fuel starts in
      if start == "" then rest else elim (search_upward_for_env fuel start) [
        | none ↦ none
        | some found ↦ if not (found == "") then some found else rest
      ]

  -- `cwd` is "" and `exec_path` and `home` are errors if the system does not tell.
  unfoldable pub search_start_dirs : String → Result String → List String
  search_start_dirs cwd exec_path =
      let exec_dir : String = elim exec_path [ err e ↦ "" | ok path ↦ parent path ] in
      if not (cwd == "") && not (exec_dir == "") && cwd == exec_dir
      then cwd ∷ []
      else if not (cwd == "") && not (exec_dir == "")
      then cwd ∷ exec_dir ∷ []
      else if not (cwd == "")
      then cwd ∷ []
      else if not (exec_dir == "")
      then exec_dir ∷ []
      else []

  unfoldable pub find_env_file_path : ℕ → String → Result String → Result String → Option String
  find_env_file_path fuel cwd exec_path home =
      elim (search_starts fuel (search_start_dirs cwd exec_path)) [
        | none ↦ none
        | some found ↦
            if not (found == "")
            then some found
            else elim home [ err e ↦ some "" | ok dir ↦ some (pick_env_file_in_dir dir) ]
      ]

  -- `overload` is the outcome of godotenv.Overload.
  unfoldable pub load_env_file :
      (String → Result (Unit {0})) → ℕ → String → Result String → Result String → Option String
  load_env_file overload fuel cwd exec_path home =
      elim (find_env_file_path fuel cwd exec_path home) [
        | none ↦ none
        | some path ↦
            if path == ""
            then some ""
            else elim (overload path) [ err e ↦ some "" | ok done ↦ some path ]
      ]

  -- the directory some steps up
  pub up : ℕ → String → String
  up zero dir = dir
  up (suc n) dir = up n (parent dir)

  -- The path of the nearest directory that has one, "" if none has.
  abbrev pub IsNearest : String → String → Type 0
  IsNearest start found =
      ((found ≡ "") × ((k : ℕ) → pick_env_file_in_dir (up k start) ≡ ""))
      ⊎ ((k : ℕ) × (found ≡ pick_env_file_in_dir (up k start))
          × (found ≢ "")
          × ((j : ℕ) → j < k → pick_env_file_in_dir (up j start) ≡ ""))
