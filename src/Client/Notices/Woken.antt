-- ===== src/Client/Notices/Woken.antt =====
-- A wait whose run ends is woken.
use agentpg.Base.{
  ℕ, ◌≡◌, refl, ap, ◌∙◌, inl, inr, Bool, true, false, List, [], ◌∷◌, ◌++◌, All, Option, none, some,
  Bool-cases, bytes_eq, codes,
}
use agentpg.Driver.{Bytes}
use agentpg.Store.Runs.{Run}
use agentpg.Store.World.{find_run}
use agentpg.Client.Notices.{
  Channel, run_created, run_state, run_finalized, tool_pending, tools_complete, other_channel,
  Listening, ListenEvent, registered, left, received, noticed, register, leave, receive, without,
  notify_run_waiters, created_in, finalized_in, completed_in, handle_on, handle_notification,
  listen, listen_all,
}
use agentpg.Client.Notices.Standing.{
  among-append, among-without, send_all-keeps, Given, Standing, IsNew, Elsewhere, found-IsOf,
  same-Standing, register-Standing, at_key, notified-Given, finalized-Standing, created-Standing,
  completed-Standing,
}

module _ (parse_mode : Bytes → Option Bytes) (parse_finalized parse_complete : Bytes → Option ℕ)
    (ch id : ℕ) where
  handled-Standing :
      (channel : Channel) (payload : Bytes) (breaks : Bool) (runs : List Run) (s : Listening)
      → Standing ch id s
      → Standing ch id
          (handle_on parse_mode parse_finalized parse_complete channel payload breaks runs s)
  handled-Standing run_created payload breaks runs s now =
      created-Standing ch id (parse_mode payload) s now
  handled-Standing run_state payload breaks runs s now = now
  handled-Standing run_finalized payload breaks runs s now =
      finalized-Standing ch id breaks runs (parse_finalized payload) s now
  handled-Standing tool_pending payload breaks runs s now = now
  handled-Standing tools_complete payload breaks runs s now =
      completed-Standing ch id (parse_complete payload) s now
  handled-Standing other_channel payload breaks runs s now = now

  listen-Standing :
      (event : ListenEvent) (s : Listening)
      → Elsewhere ch event
      → Standing ch id s
      → Standing ch id (listen parse_mode parse_finalized parse_complete event s)
  unfolding handle_notification
  listen-Standing (registered c j) s other now =
      same-Standing ch id s (register c j s)
        (λ k. at_key ch id (λ ws. ws ++ c ∷ []) j k s (λ ws. among-append ch c ws other)) refl now
  listen-Standing (left c j) s other now =
      same-Standing ch id s (leave c j s)
        (λ k. at_key ch id (without c) j k s (λ ws. among-without ch c ws other)) refl now
  listen-Standing (received c) s other now =
      same-Standing ch id s (receive c s) (λ k. refl) (rw other refl) now
  listen-Standing (noticed notif breaks runs) s other now =
      handled-Standing notif.channel notif.payload breaks runs s now

  listen_all-Standing :
      (events : List ListenEvent) (s : Listening)
      → All (Elsewhere ch) events
      → Standing ch id s
      → Standing ch id (listen_all parse_mode parse_finalized parse_complete events s)
  unfolding listen_all
  listen_all-Standing [] s other now = now
  listen_all-Standing (event ∷ events) s (other, others) now =
      listen_all-Standing events (listen parse_mode parse_finalized parse_complete event s) others
        (listen-Standing event s other now)

module _ (parse_mode : Bytes → Option Bytes) (parse_finalized parse_complete : Bytes → Option ℕ)
    (ch id : ℕ) where
  finalized-held :
      (breaks : Bool) (runs : List Run) (key : Option ℕ) (s : Listening) (found : Option Run)
      → s.held ch ≡ some found
      → (finalized_in breaks runs key s).held ch ≡ some found
  unfolding notify_run_waiters
  finalized-held breaks runs none s found full = full
  finalized-held true runs (some j) s found full = full
  finalized-held false runs (some j) s found full =
      send_all-keeps (find_run j runs) ch (s.waiters j) s.held found full

  created-held : (mode : Option Bytes) (s : Listening) → (created_in mode s).held ≡ s.held
  created-held none s = refl
  created-held (some mode) s = elim (Bool-cases (bytes_eq mode (codes "streaming"))) [
    | inl it ↦ rw it refl
    | inr other ↦ rw other refl
  ]

  completed-held : (key : Option ℕ) (s : Listening) → (completed_in key s).held ≡ s.held
  completed-held none s = refl
  completed-held (some j) s = refl

  handled-held :
      (channel : Channel) (payload : Bytes) (breaks : Bool) (runs : List Run) (s : Listening)
      (found : Option Run)
      → s.held ch ≡ some found
      → (handle_on parse_mode parse_finalized parse_complete channel payload breaks runs s).held ch
        ≡ some found
  handled-held run_created payload breaks runs s found full =
      ap (λ h. h ch) (created-held (parse_mode payload) s) ∙ full
  handled-held run_state payload breaks runs s found full = full
  handled-held run_finalized payload breaks runs s found full =
      finalized-held breaks runs (parse_finalized payload) s found full
  handled-held tool_pending payload breaks runs s found full = full
  handled-held tools_complete payload breaks runs s found full =
      ap (λ h. h ch) (completed-held (parse_complete payload) s) ∙ full
  handled-held other_channel payload breaks runs s found full = full

  listen_all-held :
      (events : List ListenEvent) (s : Listening) (found : Option Run)
      → All (Elsewhere ch) events
      → s.held ch ≡ some found
      → (listen_all parse_mode parse_finalized parse_complete events s).held ch ≡ some found
  unfolding listen_all handle_notification
  listen_all-held [] s found other full = full
  listen_all-held (registered c j ∷ events) s found (other, others) full =
      listen_all-held events (register c j s) found others full
  listen_all-held (left c j ∷ events) s found (other, others) full =
      listen_all-held events (leave c j s) found others full
  listen_all-held (received c ∷ events) s found (other, others) full =
      listen_all-held events (receive c s) found others (rw other full)
  listen_all-held (noticed notif breaks runs ∷ events) s found (other, others) full =
      listen_all-held events
        (handle_on parse_mode parse_finalized parse_complete notif.channel notif.payload breaks runs
          s)
        found others (handled-held notif.channel notif.payload breaks runs s found full)

  listen_all-append :
      (before after : List ListenEvent) (s : Listening)
      → listen_all parse_mode parse_finalized parse_complete (before ++ after) s
        ≡ listen_all parse_mode parse_finalized parse_complete after
            (listen_all parse_mode parse_finalized parse_complete before s)
  unfolding listen_all
  listen_all-append [] after s = refl
  listen_all-append (event ∷ events) after s =
      listen_all-append events after (listen parse_mode parse_finalized parse_complete event s)

  -- A wait registers a channel that is new. Whatever other waits begin, take their run or end, and
  -- whatever notifications are handled, before and after, once the notification that the run is
  -- finalized is parsed and the run can be read, the channel holds a run with this identifier, or
  -- the nil of a run that was not found: no other wait and no other notification takes it away.
  pub listen_all-wakes :
      (s : Listening) (before after : List ListenEvent) (payload : Bytes) (runs : List Run)
      → IsNew ch s
      → All (Elsewhere ch) before
      → All (Elsewhere ch) after
      → parse_finalized payload ≡ some id
      → Given ch id (
          listen_all parse_mode parse_finalized parse_complete
            (before
              ++ noticed (record { channel = run_finalized; payload = payload }) false runs ∷ after)
            (register ch id s))
  unfolding listen_all handle_notification
  listen_all-wakes s before after payload runs new others later parsed =
      let start = listen_all parse_mode parse_finalized parse_complete before (register ch id s) in
      let (found, full, is_of) =
        notified-Given ch id (find_run id runs) start (found-IsOf id runs) (
          listen_all-Standing parse_mode parse_finalized parse_complete ch id before
            (register ch id s) others (register-Standing ch id s new)) in
      (
        found,
        ap (λ x. x.held ch)
              (listen_all-append before
                (noticed (record { channel = run_finalized; payload = payload }) false runs ∷ after)
                (register ch id s))
            ∙ listen_all-held after (finalized_in false runs (parse_finalized payload) start) found
                later (rw parsed full),
        is_of,
      )
