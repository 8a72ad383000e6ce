-- ===== src/Blacklist/Expiry.antt =====
-- Which addresses libwebtester/ipc-blacklist.c refuses.
use web_tester.Prelude.{
  ℕ, ◌≡◌, refl, Bool, true, false, ◌||◌, not, List, [], ◌∷◌, Text, eq_text, if◌then◌else◌, arith,
  Bool-cases, inl, inr,
}
use web_tester.Blacklist.{BlacklistItem, Blacklist, is_expired, blacklisted_loop, ipc_blacklisted}

-- The entries that have not expired.
abbrev pub live : ℕ → ℕ → List BlacklistItem → List BlacklistItem
live timeout now [] = []
live timeout now (e ∷ es) =
    if is_expired timeout now e then live timeout now es else e ∷ live timeout now es

abbrev pub has_ip : Text → List BlacklistItem → Bool
has_ip ip [] = false
has_ip ip (e ∷ es) = eq_text ip e.ip || has_ip ip es

abbrev pub has_expired : ℕ → ℕ → List BlacklistItem → Bool
has_expired timeout now [] = false
has_expired timeout now (e ∷ es) = is_expired timeout now e || has_expired timeout now es

blacklisted_loop-live :
    (timeout now : ℕ) (ip : Text) (es : List BlacklistItem) (res changed : Bool)
    → blacklisted_loop timeout now ip es res changed ≡ (
      live timeout now es,
      res || has_ip ip (live timeout now es),
      changed || has_expired timeout now es,
    )
unfolding blacklisted_loop
blacklisted_loop-live timeout now ip [] res changed = ground arith
blacklisted_loop-live timeout now ip (e ∷ es) res changed =
    elim (Bool-cases (is_expired timeout now e)) [
      | inl x ↦ rw (x, blacklisted_loop-live timeout now ip es res true) (ground arith)
      | inr x ↦ elim (Bool-cases (eq_text ip e.ip)) [
        | inl y ↦ rw (x, y, blacklisted_loop-live timeout now ip es true changed) (ground arith)
        | inr y ↦ rw (x, y, blacklisted_loop-live timeout now ip es res changed) refl
      ]
    ]

-- An address is refused exactly if an entry of it has not expired; asking drops the expired entries and
-- no other, and the file is written exactly if there were some. Nothing is refused or dropped while the
-- list is not in use.
pub ipc_blacklisted-live :
    (now : ℕ) (ip : Text) (b : Blacklist)
    → ipc_blacklisted now ip b ≡ (
        if b.active
        then (
          has_ip ip (live b.reset_timeout now b.entries),
          record b { entries = live b.reset_timeout now b.entries },
          has_expired b.reset_timeout now b.entries,
        )
        else (false, b, false))
unfolding ipc_blacklisted
ipc_blacklisted-live now ip b =
    rw (blacklisted_loop-live b.reset_timeout now ip b.entries false false) (by_active _ _ b.active)
  where
    by_active :
        {A : Type 0} (x y : A) (active : Bool)
        → (if not active then x else y) ≡ (if active then y else x)
    by_active x y true = refl
    by_active x y false = refl
