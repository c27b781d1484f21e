-- ===== src/Auth/Peer/Identity.antt =====
-- http/peer.rs: the id under which the resource manager counts a peer.
use super_engine.Prelude.{
  ℕ, ◌≡◌, refl, sym, true, Option, none, some, [], ◌∷◌, ◌++◌, Text, text, decimal, is_digit, All,
  decimal-digits, arith, ◌≢◌,
}
use super_engine.Auth.Peer.{PeerInfo, id_of, id_with, client_id}

-- An id of digits up to a colon never starts with a letter.
no_letter : (ds r : Text) (s : Text) → All (λ c. is_digit c ≡ true) ds → (b'w' ∷ s) ≢ ds ++ b':' ∷ r
no_letter [] r s h e = absurd (ground arith)
no_letter (d ∷ ds) r s (p, h) e = absurd (ground arith)

web_ne_unix : (s : Text) (uid pid : Option ℕ) → text "web:" ++ s ≢ id_of uid pid
web_ne_unix s (some uid) (some pid) e =
    no_letter (decimal uid) (decimal pid) (text "eb:" ++ s) (decimal-digits uid) e
web_ne_unix s (some uid) none e =
    no_letter (decimal uid) (text "?") (text "eb:" ++ s) (decimal-digits uid) e
web_ne_unix s none (some pid) e = absurd (ground arith)
web_ne_unix s none none e = absurd (ground arith)

-- A web peer and a socket peer are never counted under one id, and two web peers are counted under
-- one id only if they have the same origin.
pub web_origin_of_client_id :
    (p q : PeerInfo) → client_id p ≡ client_id q → p.web_origin ≡ q.web_origin
unfolding client_id
web_origin_of_client_id p q h = go p.web_origin q.web_origin h
  where
    go : (a b : Option Text) → id_with a p.uid p.pid ≡ id_with b q.uid q.pid → a ≡ b
    go none none e = refl
    go (some o) none e = absurd (web_ne_unix o q.uid q.pid e)
    go none (some o) e = absurd (web_ne_unix o p.uid p.pid (sym e))
    go (some o) (some r) e = cc e
