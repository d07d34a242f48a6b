-- ===== src/Utils/Toast.antt =====
-- `Toast` of fruitsalade/webapp/js/utils.js: the toasts in the document and the counter of those
-- that show a progress.
use fruit_salade.Base.{
  ℕ, ◌+◌, String, Bool, true, false, Option, none, some, List, [], ◌∷◌, ◌++◌, ◌==◌, if◌then◌else◌,
  or_else, or_text,
}

-- `progress` is the number in the id `toast-progress-…`, `width` that of its bar in percent, `stays`
-- the milliseconds after which the toast is dismissed, while its timer runs.
pub record Toast : Type 0 where
  pub element : ℕ
  pub kind : String
  pub message : String
  pub progress : Option ℕ
  pub width : ℕ
  pub stays : Option ℕ
  pub leaving : Bool

pub record Tray : Type 0 where
  pub toasts : List Toast
  pub next_element : ℕ
  pub progress_counter : ℕ

unfoldable pub add_toast : Toast → Tray → Tray
add_toast t s = record s { toasts = s.toasts ++ t ∷ []; next_element = s.next_element + 1 }

-- `show`.
unfoldable pub show : String → Option String → Option ℕ → Tray → Tray
show message kind duration s =
    add_toast
      (record {
        element = s.next_element;
        kind = or_text kind "info";
        message = message;
        progress = none;
        width = 0;
        stays = some (elim duration [ none ↦ 4000 | some d ↦ (if d == 0 then 4000 else d) ]);
        leaving = false;
      })
      s

unfoldable pub change : (Toast → Bool) → (Toast → Toast) → List Toast → List Toast
change test f [] = []
change test f (t ∷ ts) = let rest = change test f ts in (if test t then f t else t) ∷ rest

abbrev pub is_element : ℕ → Toast → Bool
is_element n t = t.element == n

abbrev pub has_progress : ℕ → Toast → Bool
has_progress n t = elim t.progress [ none ↦ false | some m ↦ m == n ]

abbrev pub fade : Toast → Toast
fade t = record t { leaving = true; stays = none }

-- `dismiss`, by the timer or by the button, which stops the timer. The toast goes 300 ms later.
unfoldable pub dismiss : ℕ → Tray → Tray
dismiss n s = record s { toasts = change (is_element n) fade s.toasts }

unfoldable pub without : ℕ → List Toast → List Toast
without n [] = []
without n (t ∷ ts) = let rest = without n ts in if t.element == n then rest else t ∷ rest

-- `showProgress`: the number of the new id, and the tray.
unfoldable pub show_progress : String → Option ℕ → Tray → ℕ × Tray
show_progress message pct s =
    let id = s.progress_counter + 1 in
    (
      id,
      add_toast
          (record {
            element = s.next_element;
            kind = "info";
            message = message;
            progress = some id;
            width = or_else pct 0;
            stays = none;
            leaving = false;
          })
          (record s { progress_counter = id }),
    )

unfoldable pub update_progress : ℕ → String → Option ℕ → Tray → Tray
update_progress id message pct s = record s {
  toasts =
      change (has_progress id) (λ t. record t { message = message; width = or_else pct 0 })
        s.toasts;
}

unfoldable pub dismiss_progress : ℕ → Tray → Tray
dismiss_progress id s = record s { toasts = change (has_progress id) fade s.toasts }

pub data ToastEvent : Type 0 where
  shows : String → Option String → Option ℕ → ToastEvent
  shows_progress : String → Option ℕ → ToastEvent
  updates_progress : ℕ → String → Option ℕ → ToastEvent
  dismisses_progress : ℕ → ToastEvent
  dismisses removes : ℕ → ToastEvent

unfoldable pub after_toast : ToastEvent → Tray → Tray
after_toast (shows message kind duration) s = show message kind duration s
after_toast (shows_progress message pct) s = (show_progress message pct s).1
after_toast (updates_progress id message pct) s = update_progress id message pct s
after_toast (dismisses_progress id) s = dismiss_progress id s
after_toast (dismisses n) s = dismiss n s
after_toast (removes n) s = record s { toasts = without n s.toasts }

unfoldable pub after_toasts : List ToastEvent → Tray → Tray
after_toasts [] s = s
after_toasts (e ∷ es) s = after_toasts es (after_toast e s)

abbrev pub empty_tray : Tray
empty_tray = record { toasts = []; next_element = 0; progress_counter = 0 }
