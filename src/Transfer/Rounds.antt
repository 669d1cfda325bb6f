-- ===== src/Transfer/Rounds.antt =====
-- How often `runUploadRequest` of useFileTransfer.ts asks.
use terminal_hub.Common.{
  ℕ, suc, ◌≡◌, ◌≢◌, refl, ap, Bool, true, false, ◌&&◌, none, List, [], ◌∷◌, ◌==◌, if◌then◌else◌,
  arith,
}
use terminal_hub.Transfer.Request.{
  Reply, unreachable, response, Exchange, round, upload_rounds, run_upload_request,
}

-- A request that overwrites ends the loop, whatever its reply.
round_overwrite :
    (confirmed : Bool) (r : Reply) (e f : Exchange)
    → round confirmed true r e ≡ round confirmed true r f
unfolding round
round_overwrite confirmed unreachable e f = refl
round_overwrite confirmed (response status text body) e f = ground arith

-- More fuel than two rounds changes nothing.
upload_rounds_enough :
    (fuel : ℕ) (ask : ℕ → Reply) (confirmed : Bool)
    → upload_rounds (suc (suc fuel)) ask confirmed 0 false ≡ run_upload_request ask confirmed
unfolding run_upload_request upload_rounds
upload_rounds_enough fuel ask confirmed =
    ap (round confirmed false (ask 0)) (round_overwrite confirmed (ask 1) _ _)

abbrev pub is_conflict : Reply → Bool
is_conflict unreachable = false
is_conflict (response status text body) = status == 409

-- What was sent: one request that does not overwrite, and a second one that does exactly if the
-- first met a conflict and the user agreed.
abbrev pub IsAsked : Bool → Reply → List Bool → Type 0
IsAsked confirmed first sent =
    sent ≡ (if is_conflict first && confirmed then false ∷ true ∷ [] else false ∷ [])

second_sent :
    (r : Reply) (confirmed : Bool) (e : Exchange)
    → ((round confirmed true r e).sent ≡ true ∷ []) × ((round confirmed true r e).result ≢ none)
unfolding round
second_sent unreachable confirmed e = ground arith
second_sent (response status text body) confirmed e = ground arith

first_sent :
    (r : Reply) (confirmed : Bool) (e : Exchange)
    → e.sent ≡ true ∷ []
    → e.result ≢ none
    → IsAsked confirmed r (round confirmed false r e).sent
      × ((round confirmed false r e).result ≢ none)
unfolding round
first_sent unreachable confirmed e h k = ground arith
first_sent (response status text body) confirmed e h k = ground (arith, h, k)

-- The upload of a file ends within two requests, whatever the server answers and however many more
-- rounds the loop may take: one that does not overwrite, and a second one, which does, exactly if
-- the first met a conflict and the user agreed.
pub upload-ends :
    (fuel : ℕ) (ask : ℕ → Reply) (confirmed : Bool)
    → let e = upload_rounds (suc (suc fuel)) ask confirmed 0 false in
      (e.result ≢ none) × IsAsked confirmed (ask 0) e.sent × (e ≡ run_upload_request ask confirmed)
unfolding upload_rounds
upload-ends fuel ask confirmed =
    let later = upload_rounds (suc fuel) ask confirmed 1 true in
    let second = second_sent (ask 1) confirmed (upload_rounds fuel ask confirmed 2 true) in
    let first = first_sent (ask 0) confirmed later second.0 second.1 in
    (first.1, first.0, upload_rounds_enough fuel ask confirmed)
