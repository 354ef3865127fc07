-- ===== src/Wallet/Service/Notes.antt =====
-- The state of the wallet service, and `ScanNotes`.
use o2ul_portal.Common.{
  ℕ, String, Bool, false, not, ◌&&◌, none, some, List, [], ◌∷◌, ◌++◌, ◌==◌, concat, length, Map,
  lookup, trim_space, if◌then◌else◌, Result, ok, message, fail_if, ◌>>◌,
}
use o2ul_portal.Common.Int.{ℤ, pos, leb_ℤ}

pub record WalletNote : Type 0 where
  pub note_id : String
  pub asset_id : String
  pub amount : ℕ
  pub status : String

pub record WalletTransaction : Type 0 where
  pub tx_id : String
  pub wallet_id : String
  pub asset_id : String
  pub amount : ℕ
  pub fee : ℕ
  pub input_notes : List String
  pub status : String
  pub submitted_at : String
  pub total_outflow : ℕ
  pub signature : String

-- What the mutex guards: the transactions by their id, and the spent notes of each wallet.
pub record Service : Type 0 where
  pub transactions : Map WalletTransaction
  pub spent_notes : Map (Map Bool)

-- `s.spentNotes[walletID]`: a missing map reads as an empty one.
unfoldable pub spent_of : Service → String → Map Bool
spent_of s wallet = elim (lookup wallet s.spent_notes) [ none ↦ [] | some notes ↦ notes ]

abbrev pub is_true : Map Bool → String → Bool
is_true m k = elim (lookup k m) [ none ↦ false | some b ↦ b ]

abbrev pub status_spent : String
status_spent = "spent"

unfoldable pub mark_spent : Map Bool → List WalletNote → List WalletNote
mark_spent spent [] = []
mark_spent spent (note ∷ notes) =
    (if is_true spent note.note_id then record note { status = status_spent } else note)
    ∷ mark_spent spent notes

-- the loop over the notes; `break` ends it once `limit` notes are collected
unfoldable pub collect : Bool → ℤ → List WalletNote → List WalletNote → List WalletNote
collect include_spent limit filtered [] = filtered
collect include_spent limit filtered (note ∷ notes) =
    let skipped = collect include_spent limit filtered notes in
    let longer = filtered ++ note ∷ [] in
    let taken = collect include_spent limit longer notes in
    if not include_spent && note.status == status_spent
    then skipped
    else if leb_ℤ limit (pos (length longer))
    then longer
    else taken

abbrev pub fixture_notes : String → String → List WalletNote
fixture_notes wallet asset =
    record { note_id = concat wallet "-note-01"; asset_id = asset; amount = 14; status = "unspent" }
    ∷ record {
      note_id = concat wallet "-note-02";
      asset_id = asset;
      amount = 9;
      status = "pending";
    }
    ∷ record { note_id = concat wallet "-note-03"; asset_id = asset; amount = 6; status = "spent" }
    ∷ []

abbrev pub scan_limit : ℤ → ℤ
scan_limit limit = if leb_ℤ limit (pos 0) then pos 25 else limit

unfoldable pub scan_notes : Service → String → String → Bool → ℤ → Result (List WalletNote)
scan_notes s wallet_id asset_id include_spent limit =
    let wallet = trim_space wallet_id in
    let asset = trim_space asset_id in
    fail_if (wallet == "") (message "wallet id is required")
    >> (fail_if (asset == "") (message "asset id is required")
        >> ok (
            collect include_spent (scan_limit limit) []
              (mark_spent (spent_of s wallet) (fixture_notes wallet asset))))
