-- ===== src/Notify/Delivery.antt =====
-- When an announcement counts as delivered.
use oddk.Base.{
  sym, ◌∙◌, ◌≡◌, ◌↔◌, refl, Bool, false, not, ◌&&◌, ◌||◌, some, List, [], ◌∷◌, String, arith, All,
}
use oddk.Notify.{Network, send_attempts, send_with_retries, count_sent, send_health_notification}

-- One of the three attempts succeeds, and the context was not done in a wait before it.
abbrev pub gets_through : Network → String → Bool
gets_through net c =
    net.sends c 1
    || not (net.cancelled c 1) && (net.sends c 2 || not (net.cancelled c 2) && net.sends c 3)

send_with_retries_lem :
    (net : Network) (name : String) → send_with_retries net name ≡ gets_through net name
unfolding send_with_retries send_attempts
send_with_retries_lem net name = ground arith

none_sent :
    (net : Network) (channels : List String)
    → count_sent net channels ≡ 0
    → All (λ name. send_with_retries net name ≡ false) channels
unfolding count_sent
none_sent net [] h = tt
none_sent net (name ∷ rest) h = (ground arith, none_sent net rest (ground arith))

all_failed :
    (net : Network) (channels : List String)
    → All (λ name. send_with_retries net name ≡ false) channels
    → count_sent net channels ≡ 0
unfolding count_sent
all_failed net [] h = refl
all_failed net (name ∷ rest) h = ground (arith, all_failed net rest h.1)

explain :
    (net : Network) (cs : List String)
    → All (λ c. send_with_retries net c ≡ false) cs ↔ All (λ c. gets_through net c ≡ false) cs
explain net [] = (λ h. tt, λ h. tt)
explain net (c ∷ cs) =
    let (to, from) = explain net cs in
    (
      λ h. (sym (send_with_retries_lem net c) ∙ h.0, to h.1),
      λ h. (send_with_retries_lem net c ∙ h.0, from h.1),
    )

-- With at least one channel, an announcement fails exactly if no channel gets the message: for
-- each of them, none of the three attempts succeeds before the context is done in a wait.
pub send_health_notification-failed :
    (net : Network) (name : String) (rest : List String)
    → (send_health_notification net (some (name ∷ rest)) ≡ false)
      ↔ All (λ c. gets_through net c ≡ false) (name ∷ rest)
unfolding send_health_notification
send_health_notification-failed net name rest =
    let (to, from) = explain net (name ∷ rest) in
    (
      λ h. to (none_sent net (name ∷ rest) (ground arith)),
      λ h. ground (arith, all_failed net (name ∷ rest) (from h)),
    )
