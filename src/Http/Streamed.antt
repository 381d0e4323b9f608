-- ===== src/Http/Streamed.antt =====
-- What the stream of a deployment carries.
use t_pot_sensor_deployer.Prelude.{
  ℕ, ◌+◌, Bool, true, false, ◌||◌, Option, none, some, List, [], ◌∷◌, ◌++◌, map, ◌≡◌, refl, sym, ap,
  ◌∙◌, arith, inl, inr, leb, ltb, if◌then◌else◌, Bool-cases, any_of, length, length-append,
}
use mathlib.Core.List.{append_assoc, append-nil}
use t_pot_sensor_deployer.Duration.{seconds}
use t_pot_sensor_deployer.Task.{Meta, is_terminal}
use t_pot_sensor_deployer.Http.Deploys.{
  Event, log, keep_alive, complete, Message, entry, done, Reading, Poll, drop, final, live_status,
  live_round, live, polling, stream_deployment,
}

module _ {E : Type 0} where
  -- The events end with a completion exactly if `b`, and have no other.
  unfoldable pub Ends : Bool → List (Event E) → Type 0
  Ends b [] = b ≡ false
  Ends b (complete status deployed error ∷ rest) = (b ≡ true) × (rest ≡ [])
  Ends b (log e ∷ rest) = Ends b rest
  Ends b (keep_alive ∷ rest) = Ends b rest

  unfoldable pub is_done : Option (Message E) → Bool
  is_done (some (done status deployed error)) = true
  is_done _ = false

  -- The round reads that the task is over.
  unfoldable pub is_last : Reading E → Bool
  unfolding is_done
  is_last r = is_done r.message || is_terminal r.meta.status

  Ends-logs :
      (b : Bool) (xs : List E) (rest : List (Event E))
      → Ends b rest
      → Ends b (map (λ e. log e) xs ++ rest)
  unfolding Ends
  Ends-logs b [] rest h = h
  Ends-logs b (x ∷ xs) rest h = Ends-logs b xs rest h

  Ends-final :
      (b : Bool) (m : Meta) (rest : List (Event E))
      → Ends b rest
      → Ends (is_terminal m.status || b) (if is_terminal m.status then final m ∷ [] else rest)
  unfolding Ends final
  Ends-final b m rest h = elim (Bool-cases (is_terminal m.status)) [
    | inl over ↦ simp over (refl, refl)
    | inr going ↦ simp going h
  ]

  Ends-status :
      (b : Bool) (k : ℕ) (r : Reading E) (rest : List (Event E))
      → Ends b rest
      → Ends (is_terminal r.meta.status || b) (live_status k r rest)
  unfolding Ends live_status
  Ends-status b k r rest h = elim (Bool-cases (leb (k + seconds 15) r.now)) [
    | inl due ↦ simp due (Ends-final b r.meta rest h)
    | inr early ↦ simp early (Ends-final b r.meta rest h)
  ]

  Ends-round :
      (b : Bool) (k : ℕ) (m : Option (Message E)) (r : Reading E) (rest : List (Event E))
      → Ends b rest
      → Ends ((is_done m || is_terminal r.meta.status) || b) (live_round k m r rest)
  unfolding Ends live_round is_done
  Ends-round b k none r rest h = Ends-status b k r rest h
  Ends-round b k (some (entry e)) r rest h = Ends-status b k r rest h
  Ends-round b k (some (done status deployed error)) r rest h = (refl, refl)

  Ends-live : (k : ℕ) (rs : List (Reading E)) → Ends (any_of is_last rs) (live k rs)
  unfolding Ends live is_last
  Ends-live k [] = refl
  Ends-live k (r ∷ rs) =
      Ends-round _ k r.message r _ (Ends-live (if leb (k + seconds 15) r.now then r.now else k) rs)

  Ends-polling :
      (i : ℕ) (ps : List (Poll E))
      → Ends (any_of (λ p. is_terminal p.meta.status) ps) (polling i ps)
  unfolding Ends polling
  Ends-polling i [] = refl
  Ends-polling i (p ∷ ps) = Ends-logs _ (drop i p.logs) _ (
      Ends-final _ p.meta
        (keep_alive ∷ polling (if ltb i (length p.logs) then length p.logs else i) ps)
        (Ends-polling (if ltb i (length p.logs) then length p.logs else i) ps))

-- The stream of a deployment ends with a completion, which is its last event and the only one, exactly
-- if the task is over when it is opened, or a later round reads that it is: by its status, or on Redis
-- by the message of its end.
pub stream_deployment-Ends :
    {E : Type 0} (history : List E) (meta : Meta) (online : Bool) (clock : ℕ)
    (rs : List (Reading E)) (i : ℕ) (ps : List (Poll E))
    → Ends
        (is_terminal meta.status
          || (if online then any_of is_last rs else any_of (λ p. is_terminal p.meta.status) ps))
        (stream_deployment history meta online clock rs i ps)
unfolding stream_deployment
stream_deployment-Ends history meta true clock rs i ps =
    Ends-logs _ history _ (Ends-final _ meta (live clock rs) (Ends-live clock rs))
stream_deployment-Ends history meta false clock rs i ps =
    Ends-logs _ history _ (Ends-final _ meta (polling i ps) (Ends-polling i ps))

module _ {E : Type 0} where
  -- The entries among the events.
  unfoldable pub entries : List (Event E) → List E
  entries [] = []
  entries (log e ∷ rest) = e ∷ entries rest
  entries (keep_alive ∷ rest) = entries rest
  entries (complete status deployed error ∷ rest) = entries rest

  -- Each poll has the logs of the one before, and perhaps more.
  unfoldable pub Grows : List E → List (Poll E) → Type 0
  Grows seen [] = Unit
  Grows seen (p ∷ ps) = ((more : List E) × (p.logs ≡ seen ++ more)) × Grows p.logs ps

  -- The logs at the first poll that reads that the task is over, or else at the last.
  unfoldable pub last_logs : List E → List (Poll E) → List E
  last_logs seen [] = seen
  last_logs seen (p ∷ ps) =
      let rest = last_logs p.logs ps in if is_terminal p.meta.status then p.logs else rest

  entries-logs :
      (xs : List E) (rest : List (Event E))
      → entries (map (λ e. log e) xs ++ rest) ≡ xs ++ entries rest
  unfolding entries
  entries-logs [] rest = refl
  entries-logs (x ∷ xs) rest = ap (λ ys. x ∷ ys) (entries-logs xs rest)

  drop-append : (xs more : List E) → drop (length xs) (xs ++ more) ≡ more
  unfolding drop
  drop-append [] more = refl
  drop-append (x ∷ xs) more = drop-append xs more

  entries-polling :
      (seen : List E) (ps : List (Poll E))
      → Grows seen ps
      → seen ++ entries (polling (length seen) ps) ≡ last_logs seen ps
  unfolding Grows polling last_logs entries
  entries-polling seen [] grows = append-nil seen
  entries-polling seen (p ∷ ps) ((more, all), grows) =
      let new : drop (length seen) p.logs ≡ more =
        ap (drop (length seen)) all ∙ drop-append seen more in
      let size : length p.logs ≡ length seen + length more =
        ap (λ xs. length xs) all ∙ length-append seen more in
      let next : (if ltb (length seen) (length p.logs) then length p.logs else length seen)
          ≡ length p.logs =
        ground (arith, size) in
      let rest : List (Event E) =
        if is_terminal p.meta.status
        then final p.meta ∷ []
        else keep_alive
          ∷ polling (if ltb (length seen) (length p.logs) then length p.logs else length seen) ps in
      ap (λ xs. seen ++ xs) (entries-logs (drop (length seen) p.logs) rest)
      ∙ sym (append_assoc seen (drop (length seen) p.logs) (entries rest))
      ∙ ap (λ xs. (seen ++ xs) ++ entries rest) new
      ∙ ap (λ xs. xs ++ entries rest) (sym all)
      ∙ elim (Bool-cases (is_terminal p.meta.status)) [
        | inl over ↦ simp (over, append-nil) refl
        | inr going ↦ simp (going, next) (entries-polling p.logs ps grows)
      ]

-- Without Redis, if nothing is logged between the replay and the start of the polling and the log only
-- grows, the entries in the stream are, each once and in order, those of the log when a round read that
-- the task is over, or else when it was read last.
pub stream_deployment-entries :
    {E : Type 0} (history : List E) (meta : Meta) (clock : ℕ) (rs : List (Reading E))
    (ps : List (Poll E))
    → is_terminal meta.status ≡ false
    → Grows history ps
    → entries (stream_deployment history meta false clock rs (length history) ps)
      ≡ last_logs history ps
unfolding stream_deployment
stream_deployment-entries history meta clock rs ps going grows =
    entries-logs history _ ∙ simp going (entries-polling history ps grows)
