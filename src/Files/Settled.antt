-- ===== src/Files/Settled.antt =====
-- How the upload request of files/api.ts is settled.
use terminal_hub.Common.{
  ℕ, ◌≤◌, ◌≡◌, refl, Bool, true, false, Option, none, some, List, [], ◌∷◌, Text, codes, maybe,
  if◌then◌else◌, ◌&&◌, All, ◌⊎◌, inl, arith,
}
use terminal_hub.Files.Upload.{
  UploadResponse, Parsed, UploadError, plain_error, Effect, progress, Request, finish,
  settle_promise, canceled, on_abort, on_progress, on_load, load_result, Signal, no_signal,
  live_signal, aborted_signal, start, Event, progressed, errored, aborted, loaded, signalled,
  handle, run,
}

abbrev IsOpen : Bool → Request → Type 0
IsOpen listening s = (s.settled ≡ false) × (s.result ≡ none) × (s.listening ≡ listening)

abbrev IsDone : UploadError ⊎ UploadResponse → Request → Type 0
IsDone r s = (s.settled ≡ true) × (s.result ≡ some r) × (s.listening ≡ false)

abbrev pub IsBounded : Effect → Type 0
IsBounded (progress sent total) = sent ≤ total
IsBounded _ = Unit

module _ (string_of : ℕ → Text) (parse_json : Text → Text ⊎ Parsed) (file_size : ℕ) where
  -- What an event decides, given that the signal's listener is there or not.
  decides : Bool → Event → Option (UploadError ⊎ UploadResponse)
  decides listening (progressed _ _ _) = none
  decides listening errored = some (inl (plain_error (codes "Upload failed: network error")))
  decides listening aborted = some canceled
  decides listening (loaded status text) =
      some (load_result string_of parse_json file_size status text)
  decides listening signalled = if listening then some canceled else none

  -- The decision of the first event that decides.
  pub first_decision : Bool → List Event → Option (UploadError ⊎ UploadResponse)
  first_decision listening [] = none
  first_decision listening (e ∷ es) =
      let later = first_decision listening es in maybe (decides listening e) later (λ r. some r)

  abbrev listens : Signal → Bool
  listens live_signal = true
  listens _ = false

  -- what the signal has decided before the request is sent
  abbrev pub outcome : Signal → List Event → Option (UploadError ⊎ UploadResponse)
  outcome aborted_signal es = some canceled
  outcome signal es = first_decision (listens signal) es

  handle-IsDone :
      (x : Event) (s : Request) (r : UploadError ⊎ UploadResponse)
      → IsDone r s
      → IsDone r (handle string_of parse_json file_size x s)
  unfolding handle finish on_abort on_progress on_load
  handle-IsDone (progressed _ _ _) s r h = h
  handle-IsDone errored s r h = ground (arith, h)
  handle-IsDone aborted s r h = ground (arith, h)
  handle-IsDone (loaded status text) s r h = ground (arith, h)
  handle-IsDone signalled s r h = ground (arith, h)

  run-IsDone :
      (es : List Event) (s : Request) (r : UploadError ⊎ UploadResponse)
      → IsDone r s
      → IsDone r (run string_of parse_json file_size es s)
  unfolding run
  run-IsDone [] s r h = h
  run-IsDone (x ∷ es) s r h = run-IsDone es _ r (handle-IsDone x s r h)

  IsDecided : Bool → Option (UploadError ⊎ UploadResponse) → Request → Type 0
  IsDecided listening none s = IsOpen listening s
  IsDecided listening (some r) s = IsDone r s

  handle-IsDecided :
      (x : Event) (s : Request) (listening : Bool)
      → IsOpen listening s
      → IsDecided listening (decides listening x) (handle string_of parse_json file_size x s)
  unfolding handle finish settle_promise on_abort on_progress on_load decides IsDecided
  handle-IsDecided (progressed _ _ _) s listening h = h
  handle-IsDecided errored s listening h = ground (arith, h)
  handle-IsDecided aborted s listening h = ground (arith, h)
  handle-IsDecided (loaded status text) s listening h = ground (arith, h)
  handle-IsDecided signalled s true h = ground (arith, h)
  handle-IsDecided signalled s false h = ground (arith, h)

  -- an event that decides nothing leaves the request open for the rest
  IsDecided-run :
      (o : Option (UploadError ⊎ UploadResponse)) (es : List Event) (s : Request) (listening : Bool)
      → IsDecided listening o s
      → (IsOpen listening s
          → IsDecided listening
              (first_decision listening es)
              (run string_of parse_json file_size es s))
      → IsDecided listening
          (maybe o (first_decision listening es) (λ r. some r))
          (run string_of parse_json file_size es s)
  unfolding IsDecided
  IsDecided-run none es s listening h k = k h
  IsDecided-run (some r) es s listening h k = run-IsDone es s r h

  run-IsDecided :
      (es : List Event) (s : Request) (listening : Bool)
      → IsOpen listening s
      → IsDecided listening (first_decision listening es) (run string_of parse_json file_size es s)
  unfolding run first_decision IsDecided
  run-IsDecided [] s listening h = h
  run-IsDecided (x ∷ es) s listening h =
      let t = handle string_of parse_json file_size x s in
      IsDecided-run (decides listening x) es t listening (handle-IsDecided x s listening h)
        (run-IsDecided es t listening)

  IsSettledBy : Option (UploadError ⊎ UploadResponse) → Request → Type 0
  IsSettledBy o s =
      (s.result ≡ o)
      × (s.settled ≡ maybe o false (λ _. true))
      × ((s.settled && s.listening) ≡ false)

  IsDecided-settled :
      (listening : Bool) (o : Option (UploadError ⊎ UploadResponse)) (s : Request)
      → IsDecided listening o s
      → IsSettledBy o s
  unfolding IsDecided IsSettledBy
  IsDecided-settled listening none s h = ground (arith, h)
  IsDecided-settled listening (some r) s h = ground (arith, h)

  -- A request is settled by the first event that decides, and by no later one: a network error, an
  -- abort, the signal where there is one, or an answer; at once if the signal is aborted already.
  -- From then on it does not listen to the signal.
  pub run-settled :
      (signal : Signal) (es : List Event)
      → let s = run string_of parse_json file_size es (start signal) in
        (s.result ≡ outcome signal es)
        × (s.settled ≡ maybe (outcome signal es) false (λ _. true))
        × ((s.settled && s.listening) ≡ false)
  unfolding start finish settle_promise IsSettledBy
  run-settled no_signal es =
      IsDecided-settled false _ _ (run-IsDecided es _ false (refl, refl, refl))
  run-settled live_signal es =
      IsDecided-settled true _ _ (run-IsDecided es _ true (refl, refl, refl))
  run-settled aborted_signal es =
      let h = run-IsDone es (start aborted_signal) canceled (refl, refl, refl) in
      (h.1, h.0, ground (arith, h))

  handle-IsBounded :
      (x : Event) (s : Request)
      → All IsBounded s.log
      → All IsBounded (handle string_of parse_json file_size x s).log
  unfolding handle finish settle_promise on_abort on_progress on_load
  handle-IsBounded (progressed c n t) s h = (omega arith, h)
  handle-IsBounded errored s h = ground (arith, h)
  handle-IsBounded aborted s h = ground (arith, h)
  handle-IsBounded (loaded status text) s h = ground (arith, h)
  handle-IsBounded signalled s h = ground (arith, h)

  run-IsBounded :
      (es : List Event) (s : Request)
      → All IsBounded s.log
      → All IsBounded (run string_of parse_json file_size es s).log
  unfolding run
  run-IsBounded [] s h = h
  run-IsBounded (x ∷ es) s h = run-IsBounded es _ (handle-IsBounded x s h)

  -- No event of an upload reports more bytes sent than there are.
  progress-IsBounded :
      (signal : Signal) (es : List Event)
      → All IsBounded (run string_of parse_json file_size es (start signal)).log
  unfolding start finish settle_promise
  progress-IsBounded no_signal es = run-IsBounded es _ (tt, tt)
  progress-IsBounded live_signal es = run-IsBounded es _ (tt, tt)
  progress-IsBounded aborted_signal es = run-IsBounded es (start aborted_signal) tt
