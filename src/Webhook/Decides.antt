-- ===== src/Webhook/Decides.antt =====
-- What a validator accepts: `Decides F P m` says that `m` lets pass only where `P` holds, and, if the
-- API server answers as `F` says, wherever `P` holds. The rules follow the way validators are built.
use hermes_operator.Common.{Bool, true, false, none, ◌≡◌, refl, ◌↔◌}
use hermes_operator.Common.Flow.{Flow, stop, go, ◌>>◌, return_if, when}
use hermes_operator.Webhook.{Admission, Denial, Check, denial_of, pass, warn, Warning}

pub record Decides {W : Type 0} (F P : Type 0) (m : Check W) : Type 0 where
  pub sound : (s : Admission W) → denial_of (m s) ≡ none → P
  pub complete : (s : Admission W) → F → P → denial_of (m s) ≡ none

-- The rest of a validator once its first part has returned.
after-denial :
    {W P Q : Type 0} (r : Flow (Admission W) Denial (Unit {0})) (k : Check W)
    → (denial_of r ≡ none → P)
    → ((s : Admission W) → denial_of (k s) ≡ none → Q)
    → denial_of (elim r [ stop x s' ↦ stop x s' | go u s' ↦ k s' ]) ≡ none
    → P × Q
after-denial (stop x s) k p q e = cc
after-denial (go u s) k p q e = (p refl, q s e)

after-none :
    {W : Type 0} (r : Flow (Admission W) Denial (Unit {0})) (k : Check W)
    → denial_of r ≡ none
    → ((s : Admission W) → denial_of (k s) ≡ none)
    → denial_of (elim r [ stop x s' ↦ stop x s' | go u s' ↦ k s' ]) ≡ none
after-none (stop x s) k e q = cc
after-none (go u s) k e q = q s

module _ {W : Type 0} {F : Type 0} where
  pub Decides-iff : {P Q : Type 0} {m : Check W} → Decides F P m → P ↔ Q → Decides F Q m
  Decides-iff d e = record {
    sound = λ s h. e.0 (d.sound s h);
    complete = λ s f q. d.complete s f (e.1 q);
  }

  pub Decides-pass : Decides F (Unit {0}) (pass {W = W})
  Decides-pass = record { sound = λ s h. tt; complete = λ s f u. refl }

  pub Decides-warn : (x : Warning) → Decides F (Unit {0}) (warn {W = W} x)
  Decides-warn x = record { sound = λ s h. tt; complete = λ s f u. refl }

  pub Decides-return_if :
      (b : Bool) (r : Denial) → Decides F (b ≡ false) (return_if {S = Admission W} b r)
  Decides-return_if true r = record { sound = λ s h. cc; complete = λ s f h. cc }
  Decides-return_if false r = record { sound = λ s h. refl; complete = λ s f h. refl }

  pub Decides-when :
      {P : Type 0} (b : Bool) {m : Check W} → Decides F P m → Decides F (b ≡ true → P) (when b m)
  Decides-when true d = record {
    sound = λ s h _. d.sound s h;
    complete = λ s f p. d.complete s f (p refl);
  }
  Decides-when false d = record { sound = λ s h e. cc; complete = λ s f p. refl }

  -- A part that only warns.
  pub Decides-note :
      (b : Bool) {m : Check W} → Decides F (Unit {0}) m → Decides F (Unit {0}) (when b m)
  Decides-note b d = Decides-iff (Decides-when b d) (λ h. tt, λ u e. tt)

  pub Decides-then :
      {P Q : Type 0} {m k : Check W} → Decides F P m → Decides F Q k → Decides F (P × Q) (m >> k)
  Decides-then {m} {k} d e = record {
    sound = λ s h. after-denial (m s) k (d.sound s) e.sound h;
    complete = λ s f p. after-none (m s) k (d.complete s f p.0) λ t. e.complete t f p.1;
  }
