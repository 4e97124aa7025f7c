-- ===== src/Console/Messages/Updating.antt =====
-- `Update` of the console does not panic, and keeps its positions in range.
use navi_kv.Prelude.{ℕ, zero, suc, ◌+◌, ◌<◌, ◌≤◌, ◌≡◌, refl, ap, arith}
use navi_kv.Prelude.{Bool, false, Option, none, some, List, ◌++◌}
use navi_kv.Prelude.{
  ◌==◌, length, get_elem?, length-append, get_elem?_missing, Bool-cases, inl, inr, panic, Returns,
  Returns-bind, All, All-append, ◌∷◌,
}
use navi_kv.Bytes.{Bytes}
use navi_kv.Console.{Console}
use navi_kv.Text.{text}
use navi_kv.Console.Rendered.{KeepsLength, IsRenderable}
use navi_kv.Console.OnTabs.{OnTabs, IsPlain-append, append_to_tab-OnTabs}
use navi_kv.Console.Commands.{mode_normal, Model}
use navi_kv.Console.Modals.{Key}
use navi_kv.Console.Messages.InRange.{InRange, key-InRange}
use navi_kv.Console.Messages.{
  Message, window_size, key_pressed, command_result, kill_nodes_loaded, node_killed, node_added,
  cluster_started, cluster_stopped, log_line, other_message, fixed_tabs, node_tabs, node_tab_index,
  update_normal, append_at, is_trouble, logged, log_arrived, update,
}

-- A message that fits the model: a cluster that has started has a tab for the active position, and
-- there are nodes to select from; and texts that the tabs get keep their lengths in small letters.
abbrev pub Fits : (Bytes → Bytes) → Message → Model → Type 0
Fits lower (key_pressed key) m = KeepsLength lower m.search_input
Fits lower (log_line node level line) m =
    KeepsLength lower line × KeepsLength lower (b'[' ∷ (node ++ (text "] " ++ line)))
Fits lower (cluster_started path ports debug none) m = m.console.active_tab < 2 + length ports
Fits lower (cluster_started path ports debug (some e)) m = Unit
Fits lower (kill_nodes_loaded nodes) m = 0 < length nodes
Fits lower _ m = Unit

length-node_tabs : (count i : ℕ) → length (node_tabs count i) ≡ count
unfolding node_tabs
length-node_tabs zero i = refl
length-node_tabs (suc count) i = ap suc (length-node_tabs count (suc i))

module _ (error_style : Bytes → Bytes) (prompt : Bytes) (lower : Bytes → Bytes)
    (contains : Bytes → Bytes → Bool) (mark : Bytes → Bytes) (edit : Key → Bytes → Bytes)
    (compose_exists : Bool) where
  -- Its tabs are in range and can be rendered.
  abbrev IsSound : Console → Type 0
  IsSound c = OnTabs c × All (IsRenderable lower) c.tabs

  append_at-IsSound :
      (idx : Option ℕ) (line : Bytes) (c : Console)
      → IsSound c
      → KeepsLength lower line
      → Returns IsSound
          (append_at error_style prompt lower contains mark edit compose_exists idx line c)
  append_at-IsSound none line c s l = s
  append_at-IsSound (some idx) line c (o, h) l =
      append_to_tab-OnTabs lower contains mark idx line c o h l

  logged-IsSound :
      (node level line : Bytes) (c : Console)
      → IsSound c
      → KeepsLength lower line
      → KeepsLength lower (b'[' ∷ (node ++ (text "] " ++ line)))
      → Returns IsSound
          (logged error_style prompt lower contains mark edit compose_exists node level line c)
  unfolding logged
  logged-IsSound node level line c s l behind =
      Returns-bind IsSound IsSound
        (append_at error_style prompt lower contains mark edit compose_exists
          (node_tab_index node c.tabs) line c)
        _ (append_at-IsSound (node_tab_index node c.tabs) line c s l)
        λ shown e (o, h).
          elim (Bool-cases
            (is_trouble error_style prompt lower contains mark edit compose_exists level)) [
              | inl trouble ↦
                  rw trouble (append_to_tab-OnTabs lower contains mark 1 _ shown o h behind)
              | inr fine ↦ rw fine (o, h)
            ]

  arrived-InRange :
      (session : Option ℕ) (node level line : Bytes) (m : Model)
      → InRange lower m
      → KeepsLength lower line
      → KeepsLength lower (b'[' ∷ (node ++ (text "] " ++ line)))
      → Returns
          (λ r. InRange lower r.0)
          (log_arrived error_style prompt lower contains mark edit compose_exists session node level
            line m)
  arrived-InRange none node level line m r l behind = r
  arrived-InRange (some session) node level line m r l behind =
      Returns-bind IsSound (λ q. InRange lower q.0)
        (logged error_style prompt lower contains mark edit compose_exists node level line
          m.console)
        _ (logged-IsSound node level line m.console (r.tabs, r.texts) l behind)
        λ c e (o, h). record { tabs = o; texts = h; cursor = r.cursor }

  node_tabs-AllRenderable : (count i : ℕ) → All (IsRenderable lower) (node_tabs count i)
  unfolding node_tabs
  node_tabs-AllRenderable zero i = tt
  node_tabs-AllRenderable (suc count) i = ((tt, λ h. cc), node_tabs-AllRenderable count (suc i))

  -- In a console whose active tab is a tab, whose first tab is no search tab, whose cursor is on a
  -- node while one is selected, and whose tabs have lines and queries that `ToLower` leaves as long
  -- as they are, a message does not panic and all this stays so, if it fits: a cluster that has
  -- started has a tab at the active position, there is a node to select, and `ToLower` keeps the
  -- length of the search input at a key, and of a line of a log, alone and behind its node.
  pub update-InRange :
      (msg : Message) (m : Model)
      → InRange lower m
      → Fits lower msg m
      → Returns
          (λ r. InRange lower r.0)
          (update error_style prompt lower contains mark edit compose_exists msg m)
  unfolding update
  update-InRange (window_size w h) m r fits = record {
    tabs = r.tabs;
    texts = r.texts;
    cursor = r.cursor;
  }
  update-InRange (key_pressed key) m r fits =
      key-InRange error_style prompt lower contains mark edit compose_exists m.mode key m refl r
        fits
  update-InRange (command_result lines) m r fits = record {
    tabs = r.tabs;
    texts = r.texts;
    cursor = r.cursor;
  }
  update-InRange (kill_nodes_loaded nodes) m r fits = record {
    tabs = r.tabs;
    texts = r.texts;
    cursor = λ h. fits;
  }
  update-InRange (node_killed node none) m r fits = record {
    tabs = r.tabs;
    texts = r.texts;
    cursor = r.cursor;
  }
  update-InRange (node_killed node (some e)) m r fits = record {
    tabs = r.tabs;
    texts = r.texts;
    cursor = r.cursor;
  }
  update-InRange (node_added index port (some e)) m r fits = record {
    tabs = r.tabs;
    texts = r.texts;
    cursor = r.cursor;
  }
  update-InRange (node_added index port none) m r fits = record {
    tabs = record {
      plain = IsPlain-append m.console.tabs (node_tabs 1 index) r.tabs.plain;
      active = omega (arith, length-append m.console.tabs (node_tabs 1 index), r.tabs.active);
    };
    texts =
        All-append (IsRenderable lower) m.console.tabs (node_tabs 1 index) r.texts
          (node_tabs-AllRenderable 1 index);
    cursor = r.cursor;
  }
  update-InRange (cluster_started path ports debug (some e)) m r fits = record {
    tabs = r.tabs;
    texts = r.texts;
    cursor = r.cursor;
  }
  update-InRange (cluster_started path ports debug none) m r fits = record {
    tabs = record { plain = refl; active = omega (arith, length-node_tabs (length ports) 1, fits) };
    texts = ((tt, λ h. cc), ((tt, λ h. cc), node_tabs-AllRenderable (length ports) 1));
    cursor = r.cursor;
  }
  update-InRange (cluster_stopped reset none) m r fits = record {
    tabs = record { plain = refl; active = omega arith };
    texts = ((tt, λ h. cc), ((tt, λ h. cc), tt));
    cursor = r.cursor;
  }
  update-InRange (cluster_stopped reset (some e)) m r fits = record {
    tabs = r.tabs;
    texts = r.texts;
    cursor = r.cursor;
  }
  update-InRange (log_line node level line) m r fits =
      arrived-InRange m.log_session node level line m r fits.0 fits.1
  update-InRange other_message m r fits = r

  -- After a cluster has started with no tab at the active position, a key panics, whichever it is,
  -- if the console is in the normal mode.
  pub started_panics :
      (path : Bytes) (ports : List ℕ) (debug : Bool) (key : Key) (m : Model)
      → m.mode ≡ mode_normal
      → 2 + length ports ≤ m.console.active_tab
      → Returns
          (λ r.
            update error_style prompt lower contains mark edit compose_exists (key_pressed key) r.0
            ≡ panic)
          (update error_style prompt lower contains mark edit compose_exists
            (cluster_started path ports debug none)
            m)
  unfolding update update_normal
  started_panics path ports debug key m normal over =
      let tabs = fixed_tabs ++ node_tabs (length ports) 1 in
      let behind : (m.console.active_tab == 0) ≡ false = ground (arith, over) in
      let missing : get_elem? tabs m.console.active_tab ≡ none =
        get_elem?_missing tabs m.console.active_tab
          (omega (arith, length-node_tabs (length ports) 1, over)) in
      rw (normal, behind, missing) refl
