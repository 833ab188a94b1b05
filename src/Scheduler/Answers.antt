-- ===== src/Scheduler/Answers.antt =====
-- A plugin whose `get_tb` always comes to an end keeps its promises if each call does.
use kupl.Prelude.{ℕ, ◌+◌, ◌≡◌, sym, subst, ◌∙◌, if◌then◌else◌, Option, none, some}
use kupl.Prelude.Int.{ℤ}
use kupl.Scheduler.{Tb, Plugin, IsFaithful, one, taken}

some_value : {A : Type 0} → A → Option A → A
some_value d none = d
some_value d (some a) = a

some_inj : {A : Type 0} (a b : A) → some a ≡ some b → a ≡ b
unfolding some_value
some_inj a b e = λ i. some_value a (e i)

module _ {S : Type 0} (plugin : Plugin S) (V : S → Type 0) (held : ℕ → S → ℕ) where
  -- What adding does in one state.
  abbrev pub Adds : ℤ → S → Tb → Type 0
  Adds e s tb =
      let (s', ok) = plugin.add_tb e s tb in
      V s' × ((k : ℕ) → held k s' ≡ (if ok then one k tb else 0) + held k s)

  abbrev pub Gets : S → S → Option Tb → Type 0
  Gets s s' tb = V s' × ((k : ℕ) → held k s ≡ taken k tb + held k s')

  -- What getting does in one state, when it ends.
  abbrev pub Answers : ℤ → S → Type 0
  Answers e s = (s' : S) × (tb : Option Tb) × (plugin.get_tb e s ≡ some (s', tb)) × Gets s s' tb

  pub answer :
      (e : ℤ) (s s' : S) (r : Option Tb)
      → Answers e s
      → plugin.get_tb e s ≡ some (s', r)
      → Gets s s' r
  answer e s s' r (t, tb, out, gets) given =
      subst (λ (x : S × Option Tb). Gets s x.0 x.1) (some_inj (t, tb) (s', r) (sym out ∙ given))
        gets

  pub faithful :
      ((e : ℤ) (s : S) (tb : Tb) → V s → Adds e s tb)
      → ((e : ℤ) (s s' : S) (r : Option Tb) → V s → plugin.get_tb e s ≡ some (s', r) → Gets s s' r)
      → IsFaithful plugin V held
  faithful adds gets = record {
    add_valid = λ e s tb v. (adds e s tb v).0;
    add_held = λ e s tb k v. (adds e s tb v).1 k;
    get_valid = λ e s s' r v out. (gets e s s' r v out).0;
    get_held = λ e s s' r k v out. (gets e s s' r v out).1 k;
  }
