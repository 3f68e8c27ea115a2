-- ===== src/Connection/Remaining.antt =====
-- What is left of the list of mobile clients (src/server/mobile/mobile_register.cpp) when some do not take
-- what is sent to them.
use smarty.Base.{
  ◌⊎◌, ℕ, ◌≡◌, refl, arith, Bool, false, List, [], ◌∷◌, ◌++◌, if◌then◌else◌, Bool-cases, inl, inr,
}
use smarty.Mobile.{ClientInfo, touch_client, erase_client}
use smarty.Mobile.Broadcast.{reached}
use smarty.Mobile.Liveness.{has_client}

-- `left` is the list without some of the clients whose socket does not take what is sent: nobody else
-- is missing, nobody is new, and the order is the same.
abbrev pub IsLeftOf : (ℕ → Bool) → (left all : List ClientInfo) → Type 0
IsLeftOf net left [] = left ≡ []
IsLeftOf net left (c ∷ cs) =
    ((rest : List ClientInfo) × (left ≡ c ∷ rest) × IsLeftOf net rest cs)
    ⊎ ((net c.socket ≡ false) × IsLeftOf net left cs)

pub same_left : (net : ℕ → Bool) (cs : List ClientInfo) → IsLeftOf net cs cs
same_left net [] = refl
same_left net (c ∷ cs) = inl (cs, refl, same_left net cs)

pub reached-IsLeftOf :
    (net : ℕ → Bool) (left cs : List ClientInfo)
    → IsLeftOf net left cs
    → IsLeftOf net (reached net left) cs
reached-IsLeftOf net left [] none_left = rw none_left refl
reached-IsLeftOf net left (c ∷ cs) (inl (rest, e, these)) = elim (Bool-cases (net c.socket)) [
  | inl takes ↦ inl (reached net rest, rw (e, takes) refl, reached-IsLeftOf net rest cs these)
  | inr broken_socket ↦
      inr (broken_socket, rw (e, broken_socket) (reached-IsLeftOf net rest cs these))
]
reached-IsLeftOf net left (c ∷ cs) (inr (broken_socket, these)) =
    inr (broken_socket, reached-IsLeftOf net left cs these)

pub fresh_left :
    (net : ℕ → Bool) (socket : ℕ) (left cs : List ClientInfo)
    → has_client socket cs ≡ false
    → IsLeftOf net left cs
    → has_client socket left ≡ false
fresh_left net socket left [] fresh none_left = rw none_left refl
fresh_left net socket left (c ∷ cs) fresh (inl (rest, e, these)) =
    rw e (ground (arith, fresh_left net socket rest cs))
fresh_left net socket left (c ∷ cs) fresh (inr (b, these)) =
    fresh_left net socket left cs (ground (arith, fresh)) these

pub reached-append :
    (net : ℕ → Bool) (c : ClientInfo) (cs : List ClientInfo)
    → reached net (cs ++ c ∷ []) ≡ reached net cs ++ (if net c.socket then c ∷ [] else [])
reached-append net c [] = refl
reached-append net c (x ∷ cs) = ground (arith, reached-append net c cs)

pub touch_client-append :
    (now socket : ℕ) (c : ClientInfo) (cs : List ClientInfo)
    → has_client socket cs ≡ false
    → c.socket ≡ socket
    → touch_client now socket (cs ++ c ∷ []) ≡ cs ++ record c { last_time = now } ∷ []
unfolding touch_client
touch_client-append now socket c [] fresh same = ground arith
touch_client-append now socket c (x ∷ cs) fresh same =
    ground (arith, touch_client-append now socket c cs)

pub touch_fresh :
    (now socket : ℕ) (cs : List ClientInfo)
    → has_client socket cs ≡ false
    → touch_client now socket cs ≡ cs
unfolding touch_client
touch_fresh now socket [] fresh = refl
touch_fresh now socket (x ∷ cs) fresh = ground (arith, touch_fresh now socket cs)

pub erase_fresh :
    (socket : ℕ) (cs : List ClientInfo) → has_client socket cs ≡ false → erase_client socket cs ≡ cs
unfolding erase_client
erase_fresh socket [] fresh = refl
erase_fresh socket (x ∷ cs) fresh = ground (arith, erase_fresh socket cs)
