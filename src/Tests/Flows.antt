-- ===== src/Tests/Flows.antt =====
-- Two consent requests of one page: one asks the user while the other waits.
use super_engine.Prelude.{◌≤◌, refl, [], ◌∷◌, text, count, lookup, insert}
use super_engine.Auth.Peer.{web}
use super_engine.Auth.Consent.{ConsentKey, lock_for}
use super_engine.Auth.Consent.Locks.{
  Flows, Request, waiting, asking, initial, arrived, at_phase, arrive, acquire, Reach, start, next,
}
use super_engine.Auth.Consent.Locks.Exclusion.{asking_for, Reach-one_asker}

abbrev key : ConsentKey
key = (web (text "https://a.example"), text "settings" ∷ [])

abbrev both_wait : Flows
both_wait = arrived (arrived initial key) key

abbrev first : Request
first = record { key = key; lock = 0; phase = waiting }

abbrev one_asks : Flows
one_asks = record both_wait { requests = at_phase both_wait 1 first asking }

reached : Reach one_asks
unfolding lock_for lookup insert
reached = next (next (next start (arrive key)) (arrive key)) (acquire 1 first refl refl refl)

Reach-one_asker_example : count (asking_for key) one_asks.requests ≤ 1
Reach-one_asker_example = Reach-one_asker one_asks reached key
