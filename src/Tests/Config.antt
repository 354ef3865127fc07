-- ===== src/Tests/Config.antt =====
-- The configuration of a process that is started in "/srv", where only "/.env" is a file.
use Prim.Native.Char.{Char}
use o2ul_portal.Common.{
  to_lower, trim_space, ℕ, String, Bool, false, ◌≡◌, ◌↔◌, ◌⊎◌, Option, none, some, ◌==◌,
  if◌then◌else◌,
}
use o2ul_portal.Config.{aborted, load_for}
use o2ul_portal.Config.Secret.{load_for_aborted_iff}

abbrev same_char : Char → Char
same_char c = c

abbrev stat : String → Option Bool
stat path = if path == "/.env" then some false else none

abbrev parent : String → String
parent dir = "/"

abbrev depth : String → ℕ
depth dir = if dir == "/" then 0 else 1

-- nothing is set
abbrev getenv : String → String
getenv key = ""

load_for_aborted_iff_example : (load_for same_char getenv "" ≡ aborted) ↔ (
    ((getenv "JWT_SECRET" ≡ "") ⊎ (getenv "JWT_SECRET" ≡ "replace-me"))
    × ((getenv "APP_ENV" ≡ "")
        ⊎ (to_lower same_char (trim_space (getenv "APP_ENV")) ≡ "dev")
        ⊎ (to_lower same_char (trim_space (getenv "APP_ENV")) ≡ "development")
        ⊎ (to_lower same_char (trim_space (getenv "APP_ENV")) ≡ "local")))
load_for_aborted_iff_example = load_for_aborted_iff same_char getenv ""
