-- ===== src/Update/Listener.antt =====
-- src/ota-api.c, `ota_api_update`: what the callback hears, by a list that it keeps, against the
-- log.
use esp32s3_ota_api.Prelude.{
  ℕ, ◌≡◌, sym, ap, ◌∙◌, inl, inr, false, some, List, [], ◌∷◌, arith, if◌then◌else◌, is_some,
  Option-cases,
}
use esp32s3_ota_api.Prelude.CString.{CString}
use esp32s3_ota_api.Err.{Err}
use esp32s3_ota_api.Config.{Kconfig, Config, Event, EventCb}
use esp32s3_ota_api.System.{Platform, OtaConfig, Mark, Sys, external, dispatched}
use esp32s3_ota_api.Report.{dispatch_event}
use esp32s3_ota_api.Update.{release, update}
use esp32s3_ota_api.Update.Kept.{is_event, IsKept}
use esp32s3_ota_api.Update.Whole.{update-keeps}

-- An application that keeps the events that its callback is called with, and its answers, the latest
-- first; nothing else touches that list.
pub record IsListener (P : Platform) (config : Config (P.World))
    (heard : P.World → List (Event × Err)) : Type 0 where
  pub by_callback :
      (cb : EventCb (P.World))
      → config.event_cb ≡ some cb
      → (event : Event) (w : P.World)
      → let (err, w') = cb event config.user_ctx w in heard w' ≡ (event, err) ∷ heard w
  pub by_begin : (c : OtaConfig) (w : P.World) → heard (P.https_ota_begin c w).1 ≡ heard w
  pub by_img_desc : (h : P.Handle) (w : P.World) → heard (P.https_ota_get_img_desc h w).1 ≡ heard w
  pub by_perform : (h : P.Handle) (w : P.World) → heard (P.https_ota_perform h w).1 ≡ heard w
  pub by_abort : (h : P.Handle) (w : P.World) → heard (P.https_ota_abort h w).1 ≡ heard w
  pub by_finish : (h : P.Handle) (w : P.World) → heard (P.https_ota_finish h w).1 ≡ heard w

-- The events that a log tells of, with the answers.
abbrev pub dispatches : List Mark → List (Event × Err)
dispatches [] = []
dispatches (dispatched event err ∷ t) = (event, err) ∷ dispatches t
dispatches (_ ∷ t) = dispatches t

module _ (P : Platform) (K : Kconfig) (config : Config (P.World))
    (heard : P.World → List (Event × Err)) (listener : IsListener P config heard) where
  open P use {World}

  -- With a callback, it has heard just the events of the log; without one, nothing is heard.
  abbrev pub Hears : Sys World → Type 0
  Hears s = heard s.world ≡ (if is_some config.event_cb then dispatches s.trace else [])

  quiet-dispatches :
      (m : Mark) (t : List Mark) → is_event m ≡ false → dispatches (m ∷ t) ≡ dispatches t
  quiet-dispatches m t quiet = ground arith

  dispatch-Hears :
      (event : Event) (s : Sys World) → Hears s → Hears (dispatch_event P config event s).1
  unfolding dispatch_event external
  dispatch-Hears event s h = elim (Option-cases config.event_cb) [
    | inl absent ↦ rw (absent, dispatch_event) (rw absent at h)
    | inr (cb, present) ↦
        rw (present, dispatch_event)
          (listener.by_callback cb present event s.world
            ∙ ap (λ t. ((event, (cb event config.user_ctx s.world).0) ∷ t)) (rw present at h))
  ]

  Hears-IsKept : IsKept P config Hears
  unfolding external
  Hears-IsKept = record {
    in_begin = λ c s h. listener.by_begin c s.world ∙ h;
    in_img_desc = λ d s h. listener.by_img_desc d s.world ∙ h;
    in_perform = λ d s h. listener.by_perform d s.world ∙ h;
    in_abort = λ d s h. listener.by_abort d s.world ∙ h;
    in_finish = λ d s h. listener.by_finish d s.world ∙ h;
    in_callback = λ cb present event during s h. rw present (
        listener.by_callback cb present event s.world
        ∙ ap (λ t. ((event, (cb event config.user_ctx s.world).0) ∷ t)) (rw present at h));
    in_silence = λ silent event during s h. rw silent (rw silent at h);
    in_mark = λ m attempt quiet s h. rw (quiet-dispatches m s.trace quiet) h;
  }

  release-Hears : (s : Sys World) → Hears s → Hears (release s)
  unfolding release
  release-Hears s h = h

  -- If nothing was heard before, the callback has heard just the events of the log when a run is
  -- over.
  pub update-Hears :
      (fuel : ℕ) (url : CString) (s : Sys World) (r : Err × Sys World)
      → config.url ≡ some url
      → s.trace ≡ []
      → heard s.world ≡ []
      → update P K fuel (some config) s ≡ some r
      → Hears r.1
  update-Hears fuel url s r given fresh silent e =
      let none_yet : (if is_some config.event_cb then [] else []) ≡ heard s.world =
        ground (arith, silent) in
      update-keeps P K config Hears Hears-IsKept release-Hears dispatch-Hears fuel url s r given
        (rw fresh (sym none_yet)) (rw fresh (sym none_yet)) e
