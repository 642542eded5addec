-- ===== src/Service/Core/Urls.antt =====
-- The calendars that the service asks for, over its cycles (service/src/core/service.cpp).
use divoom_dev.Prelude.{
  ◌≡◌, refl, subst, ◌∙◌, ℕ, Option, none, some, List, [], ◌∷◌, arith, Bool-cases, inl, inr,
}
use divoom_dev.Prelude.Int.{ℤ}
use divoom_dev.Prelude.Map.{insert_key}
use divoom_dev.Prelude.Text.{Text, is_empty}
use divoom_dev.Ics.Chrono.{Chrono}
use divoom_dev.Ics.Event.{ScheduledEvent}
use divoom_dev.Ics.Manager as Manager
use divoom_dev.Ics.TextUtils.{Outcome, returns, throws}
use divoom_dev.Jira as Jira
use divoom_dev.Json.{Nlohmann}
use divoom_dev.Service.Core.{run_cycles, cycle, if_ended, without_storage}
use divoom_dev.Service.Cycle.{
  Settings, Outside, Ended, ended, undefined, get_db_info, process_cycle, run_once, after_events,
  after_jira, updated, with_sources,
}
use divoom_dev.Service.Updater.{Updater, Client}
use divoom_dev.Storage.{CalendarSource}

and_then-urls :
    {A : Type 0} (r : Manager.Manager × Outcome (Unit {0}))
    (rest : Manager.Manager → Manager.Manager × Outcome A)
    → ((n : Manager.Manager) → (rest n).0.calendar_urls ≡ n.calendar_urls)
    → (Manager.and_then r rest).0.calendar_urls ≡ r.0.calendar_urls
and_then-urls (m, throws e) rest h = refl
and_then-urls (m, returns u) rest h = h m

module _ (c : Chrono) (tick_ms : ℕ) where
  parsed_into-urls :
      (m : Manager.Manager) (cache : _) (o : Outcome (List ScheduledEvent))
      → (Manager.parsed_into c tick_ms m cache o).0.calendar_urls ≡ m.calendar_urls
  parsed_into-urls m cache (throws e) = refl
  parsed_into-urls m cache (returns events) = refl

  load_url-urls :
      (w : Manager.World) (m : Manager.Manager) (url : Text)
      → (Manager.load_url c tick_ms w m url).0.calendar_urls ≡ m.calendar_urls
  unfolding Manager.load_url
  load_url-urls w m url =
      let o = Manager.obtain c tick_ms w m.cache url in
      elim (Bool-cases (is_empty o.content)) [
        | inl e ↦ rw (e) refl
        | inr e ↦ rw (e) (parsed_into-urls m o.cache _)
      ]

  load_urls-urls :
      (w : Manager.World) (urls : List Text) (m : Manager.Manager)
      → (Manager.load_urls c tick_ms w m urls).0.calendar_urls ≡ m.calendar_urls
  unfolding Manager.load_urls
  load_urls-urls w [] m = refl
  load_urls-urls w (url ∷ urls) m =
      and_then-urls (Manager.load_url c tick_ms w m url)
        (λ next. Manager.load_urls c tick_ms w next urls) (load_urls-urls w urls)
      ∙ load_url-urls w m url

  load_from_sources-urls :
      (w : Manager.World) (m : Manager.Manager)
      → (Manager.load_from_sources c tick_ms w m).0.calendar_urls ≡ m.calendar_urls
  unfolding Manager.load_from_sources
  load_from_sources-urls w m =
      ground (arith, load_urls-urls w m.calendar_urls (record m { fetched_events = [] }))

  get_next_events-urls :
      (w : Manager.World) (now : ℤ) (m : Manager.Manager)
      → (Manager.get_next_events c tick_ms w now m).0.calendar_urls ≡ m.calendar_urls
  unfolding Manager.get_next_events
  get_next_events-urls w now m =
      and_then-urls (Manager.load_from_sources c tick_ms w m)
        (λ next. (next, returns (Manager.next_of c now next))) (λ n. refl)
      ∙ load_from_sources-urls w m

-- The urls in ascending order, each once.
abbrev pub add_urls : List Text → List CalendarSource → List Text
add_urls urls [] = urls
add_urls urls (item ∷ items) = add_urls (insert_key item.url urls) items

with_sources-urls :
    (items : List CalendarSource) (m : Manager.Manager)
    → (with_sources m items).calendar_urls ≡ add_urls m.calendar_urls items
unfolding Manager.add_calendar_url
with_sources-urls [] m = refl
with_sources-urls (item ∷ items) m = with_sources-urls items (Manager.add_calendar_url m item.url)

get_db_info-urls :
    {S : Type 0} (client : Client S) (settings : Settings) (m : Manager.Manager) (u : Updater)
    (s : S)
    → (get_db_info client settings m u s).0.calendar_urls
      ≡ add_urls m.calendar_urls settings.list_calendar_sources
unfolding get_db_info
get_db_info-urls client settings m u s =
    ground (arith, with_sources-urls settings.list_calendar_sources m)

-- Where it ends, the manager asks for these urls.
abbrev pub EndsWith : {S : Type 0} → List Text → Option (Ended S) → Type 0
EndsWith urls none = Unit
EndsWith urls (some undefined) = Unit
EndsWith urls (some (ended m u s)) = m.calendar_urls ≡ urls

module _ {J S : Type 0} (json : Nlohmann J) (c : Chrono) (tick_ms : ℕ) (client : Client S)
    (hash : Text → ℕ) where
  module _ (settings : Settings) (outside : Outside) (fuel : ℕ) where
    updated-EndsWith :
        (m : Manager.Manager) (r : Option (Updater × S))
        → EndsWith m.calendar_urls (updated json c tick_ms client hash settings outside m r)
    updated-EndsWith m none = tt
    updated-EndsWith m (some (u, s)) = refl

    after_jira-EndsWith :
        (r : Jira.Attempt Text) (m : Manager.Manager) (u : Updater) (s : S)
        → EndsWith m.calendar_urls
            (after_jira json c tick_ms client hash settings outside fuel r m u s)
    after_jira-EndsWith (Jira.returned text) m u s = updated-EndsWith m _
    after_jira-EndsWith Jira.threw m u s = refl
    after_jira-EndsWith Jira.undefined m u s = tt

    after_events-EndsWith :
        (r : Manager.Manager × Outcome (List ScheduledEvent)) (u : Updater) (s : S)
        → EndsWith r.0.calendar_urls
            (after_events json c tick_ms client hash settings outside fuel r u s)
    after_events-EndsWith (m, returns events) u s = after_jira-EndsWith _ m u s
    after_events-EndsWith (m, throws e) u s = refl

    run_once-EndsWith :
        (m : Manager.Manager) (u : Updater) (s : S)
        → EndsWith
            (add_urls m.calendar_urls settings.list_calendar_sources)
            (run_once json c tick_ms client hash settings outside fuel m u s)
    unfolding run_once process_cycle
    run_once-EndsWith m u s =
        let next = get_db_info client settings m u s in
        subst
          (λ urls. EndsWith urls (run_once json c tick_ms client hash settings outside fuel m u s))
          (get_next_events-urls c tick_ms outside.calendars outside.now next.0
            ∙ get_db_info-urls client settings m u s)
          (after_events-EndsWith
            (Manager.get_next_events c tick_ms outside.calendars outside.now next.0) next.1 next.2)

  without_storage-EndsWith :
      (r : Manager.Manager × Outcome (List ScheduledEvent)) (u : Updater) (s : S)
      → EndsWith r.0.calendar_urls (without_storage json c tick_ms client hash r u s)
  without_storage-EndsWith (m, returns events) u s = tt
  without_storage-EndsWith (m, throws e) u s = refl

  -- The urls after cycles with these storages.
  abbrev pub urls_after : List Text → List (Option Settings × Outside) → List Text
  urls_after urls [] = urls
  urls_after urls ((none, outside) ∷ days) = urls_after urls days
  urls_after urls ((some settings, outside) ∷ days) =
      urls_after (add_urls urls settings.list_calendar_sources) days

  if_ended-EndsWith :
      (r : Option (Ended S)) (rest : Manager.Manager → Updater → S → Option (Ended S))
      (urls last : List Text)
      → EndsWith urls r
      → ((m : Manager.Manager) (u : Updater) (s : S)
          → m.calendar_urls ≡ urls
          → EndsWith last (rest m u s))
      → EndsWith last (if_ended json c tick_ms client hash r rest)
  if_ended-EndsWith none rest urls last h k = tt
  if_ended-EndsWith (some undefined) rest urls last h k = tt
  if_ended-EndsWith (some (ended m u s)) rest urls last h k = k m u s h

  after_cycles :
      (fuel : ℕ) (days : List (Option Settings × Outside)) (urls : List Text) (m : Manager.Manager)
      (u : Updater) (s : S)
      → m.calendar_urls ≡ urls
      → EndsWith (urls_after urls days) (run_cycles json c tick_ms client hash fuel days m u s)
  unfolding run_cycles
  after_cycles fuel [] urls m u s h = h
  after_cycles fuel ((none, outside) ∷ days) urls m u s h =
      if_ended-EndsWith _ (run_cycles json c tick_ms client hash fuel days) urls
        (urls_after urls days)
        (subst (λ x. EndsWith x (cycle json c tick_ms client hash none outside fuel m u s))
          (get_next_events-urls c tick_ms outside.calendars outside.now m ∙ h)
          (without_storage-EndsWith
            (Manager.get_next_events c tick_ms outside.calendars outside.now m) u s))
        (after_cycles fuel days urls)
  after_cycles fuel ((some settings, outside) ∷ days) urls m u s h =
      if_ended-EndsWith _ (run_cycles json c tick_ms client hash fuel days)
        (add_urls urls settings.list_calendar_sources)
        (urls_after (add_urls urls settings.list_calendar_sources) days)
        (subst
          (λ x.
            EndsWith (add_urls x settings.list_calendar_sources)
              (cycle json c tick_ms client hash (some settings) outside fuel m u s))
          h (run_once-EndsWith settings outside fuel m u s))
        (after_cycles fuel days (add_urls urls settings.list_calendar_sources))

  -- Whatever the calendars, Jira, Jenkins and the devices answer: if the cycles end, the manager then
  -- asks for the urls that it began with and every url that the storage listed in one of the cycles,
  -- inserted in their order. A calendar source that was removed between two cycles, or is disabled,
  -- stays among them, and no exception takes a url away.
  pub run_cycles-urls :
      (fuel : ℕ) (days : List (Option Settings × Outside)) (m : Manager.Manager) (u : Updater)
      (s : S)
      → EndsWith
          (urls_after m.calendar_urls days)
          (run_cycles json c tick_ms client hash fuel days m u s)
  run_cycles-urls fuel days m u s = after_cycles fuel days m.calendar_urls m u s refl
