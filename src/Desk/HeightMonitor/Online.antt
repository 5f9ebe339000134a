-- ===== src/Desk/HeightMonitor/Online.antt =====
-- What an online height is worth.
use kdt_smaty.Prelude.{
  ℕ, ◌+◌, ◌≤◌, ◌≡◌, refl, String, Bool, true, false, not, ◌&&◌, ◌||◌, Option, none, some, List, [],
  ◌∷◌, ltb, arith, if◌then◌else◌,
}
use kdt_smaty.Desk.Models.{
  Float, finite, HeightStatus, HeightProvenance, HeightSnapshot, DeskSettings,
}
use kdt_smaty.Desk.Segment
use kdt_smaty.Desk.Segment.{Json, bytes}
use kdt_smaty.Desk.Segment.Display.{InRange, decode-InRange}
use kdt_smaty.Desk.HeightMonitor.{
  is_active, is_error, is_connected, SerialStatus, connected, Monitor, new, CacheLoad, Done,
  load_cache, create_runner, start, stop, aged_status, observed_status, get_snapshot, Publishing,
  observe, receive_decoded, receive, Event, starts, stops, receives, handle, handle_all,
}

module _ (utf_8 : List ℕ → Option String) (loads : String → Option Json) (s : DeskSettings) where
  -- The monitor has no height, or one of the cache, or one that was observed in the measuring range.
  data Sound (height : Option Float) (observed : Option ℕ) : Option HeightProvenance → Type 0 where
    blank : height ≡ none → Sound height observed none
    cached : Sound height observed (some HeightProvenance.cached)
    live :
        (h t : ℕ)
        → height ≡ some (finite h)
        → observed ≡ some t
        → InRange s h
        → Sound height observed (some HeightProvenance.live)

  abbrev IsSound : Monitor → Type 0
  IsSound m = Sound m.height_cm m.observed_at m.provenance

  IsSound-load : (c : CacheLoad) (m : Monitor) → IsSound (load_cache c m)
  unfolding load_cache
  IsSound-load (CacheLoad.loaded h t) m = cached
  IsSound-load CacheLoad.no_cache m = blank refl
  IsSound-load CacheLoad.load_failed m = blank refl
  IsSound-load CacheLoad.empty m = blank refl

  -- The operation leaves a sound monitor.
  record Leaves (d : Done) : Type 0 where
    sound : IsSound d.monitor

  sound_if : (b : Bool) (x y : Done) → Leaves x → Leaves y → Leaves (if b then x else y)
  sound_if true x y hx hy = hx
  sound_if false x y hx hy = hy

  sound_create : (b : Bool) (m : Monitor) → IsSound m → Leaves (create_runner b m)
  unfolding create_runner
  sound_create true m h = record { sound = h }
  sound_create false m h = record { sound = h }

  sound_observe :
      (has_cache : Bool) (p : Publishing) (now height : ℕ) (m : Monitor)
      → InRange s height
      → Leaves (observe utf_8 loads s has_cache p height now m)
  unfolding observe
  sound_observe has_cache Publishing.published now height m r = record {
    sound = live height now refl refl r;
  }
  sound_observe has_cache Publishing.unavailable now height m r = record {
    sound = live height now refl refl r;
  }
  sound_observe has_cache Publishing.failed now height m r = record {
    sound = live height now refl refl r;
  }

  sound_decoded :
      (has_cache : Bool) (p : Publishing) (serial : SerialStatus) (now : ℕ) (found : Option ℕ)
      (m : Monitor)
      → ((height : ℕ) → found ≡ some height → InRange s height)
      → IsSound m
      → Leaves (receive_decoded utf_8 loads s has_cache p serial now found m)
  unfolding receive_decoded
  sound_decoded has_cache p serial now none m k h = record { sound = h }
  sound_decoded has_cache p serial now (some height) m k h =
      sound_if (is_connected serial) _ _ (sound_observe has_cache p now height m (k height refl))
        (record { sound = h })

  sound_receive :
      (has_cache : Bool) (p : Publishing) (serial : SerialStatus) (now : ℕ) (line : List ℕ)
      (m : Monitor)
      → IsSound m
      → Leaves (receive utf_8 loads s has_cache p serial now line m)
  unfolding receive
  sound_receive has_cache p serial now [] m h = record { sound = h }
  sound_receive has_cache p serial now (b ∷ line) m h =
      sound_decoded has_cache p serial now (Segment.decode utf_8 loads s (bytes (b ∷ line))) m
        (decode-InRange s utf_8 loads (bytes (b ∷ line))) h

  sound_handle : (e : Event) (m : Monitor) → IsSound m → Leaves (handle utf_8 loads s e m)
  unfolding handle start stop
  sound_handle (starts c b d) m h =
      sound_if (m.running || is_active m.runner_task) _ _ (record { sound = h })
        (sound_if b _ _ (sound_create d _ (IsSound-load c m)) (record { sound = IsSound-load c m }))
  sound_handle (stops source_stops) m h = record { sound = h }
  sound_handle (receives has_cache p serial now line) m h =
      sound_if (m.running && is_active m.runner_task) _ _
        (sound_receive has_cache p serial now line m h) (record { sound = h })

  IsSound-all :
      (events : List Event) (m : Monitor) → IsSound m → IsSound (handle_all utf_8 loads s events m)
  unfolding handle_all
  IsSound-all [] m h = h
  IsSound-all (e ∷ rest) m h =
      IsSound-all rest (handle utf_8 loads s e m).monitor (sound_handle e m h).sound

  -- A height that was observed live, in the measuring range, no longer ago than the limit.
  pub record Fresh (now : ℕ) (measured : Option Float) (time : Option ℕ)
      (origin : Option HeightProvenance) : Type 0 where
    height : ℕ
    at : ℕ
    is_height : measured ≡ some (finite height)
    is_at : time ≡ some at
    is_live : origin ≡ some HeightProvenance.live
    recent : now ≤ at + s.height_stale_after
    range : InRange s height

  aged :
      (late : Bool) (serial : SerialStatus)
      → (if late
          then HeightStatus.stale
          else if is_connected serial
          then HeightStatus.online
          else HeightStatus.error)
        ≡ HeightStatus.online
      → (late ≡ false) × (serial ≡ connected)
  aged true serial e = cc
  aged false connected e = (refl, refl)
  aged false SerialStatus.stopped e = cc
  aged false SerialStatus.disconnected e = cc
  aged false SerialStatus.error e = cc

  unless_stopped :
      (b : Bool) (x : HeightStatus)
      → (if not b then HeightStatus.stopped else x) ≡ HeightStatus.online
      → (b ≡ true) × (x ≡ HeightStatus.online)
  unless_stopped true x e = (refl, e)
  unless_stopped false x e = cc

  unless_error :
      (b : Bool) (x : HeightStatus)
      → (if b then HeightStatus.error else x) ≡ HeightStatus.online
      → x ≡ HeightStatus.online
  unless_error false x e = e
  unless_error true x e = cc

  online_aged :
      (serial : SerialStatus) (now t : ℕ)
      → aged_status s serial now t ≡ HeightStatus.online
      → (now ≤ t + s.height_stale_after) × (serial ≡ connected)
  unfolding aged_status
  online_aged serial now t e =
      let f = aged (ltb (t + s.height_stale_after) now) serial e in (not_late f.0, f.1)
    where
      not_late : ltb (t + s.height_stale_after) now ≡ false → now ≤ t + s.height_stale_after
      not_late f = ground arith

  online_observed :
      (serial : SerialStatus) (now : ℕ) (provenance : Option HeightProvenance)
      (height : Option Float) (observed : Option ℕ)
      → Sound height observed provenance
      → observed_status s serial now provenance height observed ≡ HeightStatus.online
      → Fresh now height observed provenance × (serial ≡ connected)
  unfolding observed_status
  online_observed serial now (some HeightProvenance.live) (some v) (some t') (live h t eh et r) e =
      let f = online_aged serial now t' e in
      (
        record {
          height = h;
          at = t';
          is_height = eh;
          is_at = refl;
          is_live = refl;
          recent = f.0;
          range = r;
        },
        f.1,
      )
  online_observed serial now (some HeightProvenance.live) (some v) none (live h t eh et r) e = cc
  online_observed serial now (some HeightProvenance.live) none observed (live h t eh et r) e = cc
  online_observed serial now none (some v) observed (blank n) e = cc
  online_observed serial now none none observed (blank n) e = cc
  online_observed serial now (some HeightProvenance.cached) (some v) (some t) cached e = cc
  online_observed serial now (some HeightProvenance.cached) (some v) none cached e = cc
  online_observed serial now (some HeightProvenance.cached) none observed cached e = cc

  abbrev pub IsFresh : ℕ → HeightSnapshot → Type 0
  IsFresh now snapshot = Fresh now snapshot.height_cm snapshot.observed_at snapshot.provenance

  -- Whatever a monitor has been through since it was made, if its snapshot says online then the
  -- height in it was observed live, lies in the measuring range and is not older than the limit, the
  -- serial source is connected, and the monitor runs.
  pub get_snapshot-IsFresh :
      (events : List Event) (serial : SerialStatus) (now : ℕ)
      → let m = handle_all utf_8 loads s events new in
        (get_snapshot s serial now m).status ≡ HeightStatus.online
        → IsFresh now (get_snapshot s serial now m) × (serial ≡ connected) × (m.running ≡ true)
  unfolding get_snapshot
  get_snapshot-IsFresh events serial now e =
      let m = handle_all utf_8 loads s events new in
      let sound = IsSound-all events new (unfold new in blank refl) in
      let runs = unless_stopped m.running _ e in
      let fresh =
        online_observed serial now m.provenance m.height_cm m.observed_at sound
          (unless_error (is_error serial) _ runs.1) in
      (fresh.0, fresh.1, runs.0)
