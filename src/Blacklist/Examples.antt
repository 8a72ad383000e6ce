-- ===== src/Blacklist/Examples.antt =====
-- An address that was blacklisted at 10, asked for at 15.
use web_tester.Prelude.{◌≡◌, true, [], ◌∷◌, Text}
use web_tester.Blacklist.{Blacklist, blacklist_ip, ipc_blacklisted}
use web_tester.Blacklist.Expiry.{live, has_ip, has_expired, ipc_blacklisted-live}

abbrev address : Text
address = 49 ∷ []

abbrev other : Text
other = 50 ∷ []

abbrev listed : Blacklist
listed =
    blacklist_ip address 10
      (blacklist_ip other 1 (record { active = true; reset_timeout = 10; entries = [] }))

ipc_blacklisted-live_example : ipc_blacklisted 15 address listed ≡ (
  has_ip address (live 10 15 listed.entries),
  record listed { entries = live 10 15 listed.entries },
  has_expired 10 15 listed.entries,
)
ipc_blacklisted-live_example = ipc_blacklisted-live 15 address listed
