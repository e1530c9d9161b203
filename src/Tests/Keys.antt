-- ===== src/Tests/Keys.antt =====
-- Keys of the client that two screens register; a handler is a number.
use tuxanci_ng.Prelude.{
  ℕ, ◌+◌, ◌<◌, ◌≡◌, refl, ◌⊎◌, [], ◌∷◌, ◌++◌, List, Bool, true, false, none, some, ok, err, aborted,
  ◌>>=◌, get_elem?, length,
}
use tuxanci_ng.Prelude.Int.{ℤ, pos}
use tuxanci_ng.HotKey.{
  HotKey, HotKeys, hot_key_init, hot_key_event, find_hotkey, set_active, too_soon, pressed,
  active_interval, hot_key_register, hot_key_unregister, hot_key_disable,
}
use tuxanci_ng.HotKey.Refine.{
  Call, register, unregister, disable, call, calls, specs, view, calls-view_refine,
}
use tuxanci_ng.HotKey.Press.{counts, hot_key_event_lem}

-- The menu registers escape, a dialog does so too and goes; the menu then disables its key.
abbrev dialog : List (Call ℕ)
dialog =
    register (pos 27) 1
    ∷ register (pos 13) 2
    ∷ register (pos 27) 3
    ∷ unregister (pos 27)
    ∷ disable (pos 27) 7000
    ∷ []

after_dialog :
    calls dialog (hot_key_init 0)
    ≡ ok (record {
      list =
          record { key = pos 13; active = true; handler = 2 }
          ∷ record { key = pos 27; active = false; handler = 1 }
          ∷ [];
      last_active = 7000;
    })
unfolding calls call hot_key_register hot_key_unregister hot_key_disable find_hotkey set_active
after_dialog = refl

unregister_twice :
    calls (dialog ++ (unregister (pos 27) ∷ unregister (pos 27) ∷ [])) (hot_key_init 0)
    ≡ err aborted
unfolding calls call hot_key_register hot_key_unregister hot_key_disable find_hotkey set_active
unregister_twice = refl

calls-view_refine_example :
    (calls dialog (hot_key_init 0) >>= λ s. ok (view s)) ≡ specs dialog (view (hot_key_init 0))
calls-view_refine_example = calls-view_refine dialog (hot_key_init 0)

-- The keys of the menu.
abbrev menu : HotKeys ℕ
menu = record {
  list =
      record { key = pos 13; active = false; handler = 2 }
      ∷ record { key = pos 27; active = true; handler = 1 }
      ∷ [];
  last_active = 100;
}

abbrev all_down : ℤ → Bool
all_down key = true

escape_is_called : hot_key_event all_down 700 701 menu ≡ (record menu { last_active = 701 }, some 1)
unfolding hot_key_event pressed too_soon
escape_is_called = refl

hot_key_event_lem_example :
    ((hot_key_event all_down 700 701 menu ≡ (menu, none))
      × ((too_soon 700 100 ≡ true)
          ⊎ ((j : ℕ) (that : HotKey ℕ)
              → j < length menu.list
              → get_elem? menu.list j ≡ some that
              → counts all_down that ≡ false)))
    ⊎ ((i : ℕ) × (this : HotKey ℕ) × (s' : HotKeys ℕ) × (get_elem? menu.list i ≡ some this)
        × (counts all_down this ≡ true)
        × ((j : ℕ) (that : HotKey ℕ)
            → j < i
            → get_elem? menu.list j ≡ some that
            → counts all_down that ≡ false)
        × (hot_key_event all_down 700 701 menu ≡ (s', some this.handler))
        × (s'.list ≡ menu.list)
        × ((t : ℕ) (is_down' : ℤ → Bool) (later' : ℕ)
            → t < active_interval
            → hot_key_event is_down' (701 + t) later' s' ≡ (s', none)))
hot_key_event_lem_example = hot_key_event_lem all_down 700 701 menu
