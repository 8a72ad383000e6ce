-- ===== src/Blacklist.antt =====
-- libwebtester/ipc-blacklist.c: addresses that are refused for a while.
--
-- A timeout that is not positive is 0. The file that the list is kept in is left out; `changed` says
-- that it is written.
use web_tester.Prelude.{
  ℕ, ◌+◌, Bool, true, false, ◌&&◌, ◌||◌, not, List, [], ◌∷◌, ◌++◌, Text, eq_text, ltb, leb,
  if◌then◌else◌,
}
pub mod Expiry
mod Examples

-- `blacklist_item_t`
pub record BlacklistItem : Type 0 where
  pub ip : Text
  pub timestamp : ℕ

-- The static variables.
pub record Blacklist : Type 0 where
  pub active : Bool
  pub reset_timeout : ℕ
  pub entries : List BlacklistItem

-- `blacklist_ip`, with the current time for -1
abbrev pub blacklist_ip : Text → ℕ → Blacklist → Blacklist
blacklist_ip ip time b = record b {
  entries = b.entries ++ record { ip = ip; timestamp = time } ∷ [];
}

-- `reset_timeout > 0 && t - cur->timestamp >= reset_timeout`
abbrev pub is_expired : ℕ → ℕ → BlacklistItem → Bool
is_expired timeout now e = ltb 0 timeout && leb (e.timestamp + timeout) now

-- The loop of `ipc_blacklisted`: the entries that stay, `res` and `changed`.
unfoldable pub blacklisted_loop :
    ℕ → ℕ → Text → List BlacklistItem → Bool → Bool → List BlacklistItem × Bool × Bool
blacklisted_loop timeout now ip [] res changed = ([], res, changed)
blacklisted_loop timeout now ip (e ∷ es) res changed =
    let expired = is_expired timeout now e in
    let (kept, res', changed') =
      blacklisted_loop timeout now ip es (if not expired && eq_text ip e.ip then true else res)
        (if expired then true else changed) in
    (if expired then kept else e ∷ kept, res', changed')

-- `ipc_blacklisted`: the result, the list and whether it is written
unfoldable pub ipc_blacklisted : ℕ → Text → Blacklist → Bool × Blacklist × Bool
ipc_blacklisted now ip b =
    let (kept, res, changed) = blacklisted_loop b.reset_timeout now ip b.entries false false in
    if not b.active then (false, b, false) else (res, record b { entries = kept }, changed)
