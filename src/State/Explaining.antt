-- ===== src/State/Explaining.antt =====
-- The conditions that GoalConditions builds, against what they are to say.
use age_of_agents.Base.{
  String, ◌==◌, Bool, true, false, not, ◌&&◌, ◌||◌, if◌then◌else◌, subst, ◌≡◌, ◌≢◌, refl, sym, ◌∙◌,
  inl, inr, Option, none, some, List, Bool-cases, eq_iff, arith,
}
use age_of_agents.Api.Contract.{
  Outcome, queued, running, awaiting_approval, merged, failed, cancelled, delivered, Condition,
  ConditionType, ConditionStatus,
}
use Prim.Native.String.{◌++◌ as str_append}
use age_of_agents.State.Model.{Goal, Ticket}
use age_of_agents.State.Outcome.{
  Tasks, accepted_condition, verified_condition, delivered_condition, complete_condition,
  verified_settled, cond_false, failure_message,
}
use age_of_agents.State.Tally.{
  Has, exists, exists-Has, exists-none, first_of, first_of-Has, of_goal, parked, working, lost,
  denied, Tallies,
}
use age_of_agents.State.Explained.{SaysAccepted, Blames, SaysVerified, SaysDelivered, SaysComplete}

-- What holds of both branches of a test holds of the test.
given :
    {A : Type 0} (P : A → Type 0) (b : Bool) {x y : A}
    → (b ≡ true → P x)
    → (b ≡ false → P y)
    → P (if b then x else y)
given P true f g = f refl
given P false f g = g refl

same_text : (a b : String) → (a == b) ≡ true → a ≡ b
same_text a b h = (eq_iff a b).0 h

differs : (a b : String) → (a == b) ≡ false → a ≢ b
differs a b h e = ground (arith, eq_iff a b, e, h)

wrong : (b : Bool) → not b ≡ true → b ≡ false
wrong b h = ground (arith, h)

right : (b : Bool) → not b ≡ false → b ≡ true
right b h = ground (arith, h)

module _ (p : Ticket → Bool) (ts : List Ticket) (b : Bool) (e : b ≡ exists p ts) where
  found : b ≡ true → Has p ts
  found h = exists-Has p ts (sym e ∙ h)

  absent : b ≡ false → Has p ts → ⊥
  absent h = exists-none p ts (sym e ∙ h)

is_no :
    (g : Goal) (r f : Option Ticket) → (verified_settled g r f).status ≡ ConditionStatus.is_false
is_no g none none = ground arith
is_no g none (some t) = ground arith
is_no g (some t) f = ground arith

module _ (g : Goal) (id : String) (ts : List Ticket) (k : Tasks) (fits : Tallies id k ts) where
  some_task : k.has_tickets ≡ true → Has (of_goal id) ts
  some_task = found (of_goal id) ts k.has_tickets fits.0

  no_task : k.has_tickets ≡ false → Has (of_goal id) ts → ⊥
  no_task = absent (of_goal id) ts k.has_tickets fits.0

  some_parked : k.is_parked ≡ true → Has (parked id) ts
  some_parked = found (parked id) ts k.is_parked fits.1

  none_parked : k.is_parked ≡ false → Has (parked id) ts → ⊥
  none_parked = absent (parked id) ts k.is_parked fits.1

  some_working : k.in_flight ≡ true → Has (working id) ts
  some_working = found (working id) ts k.in_flight fits.2

  none_working : k.in_flight ≡ false → Has (working id) ts → ⊥
  none_working = absent (working id) ts k.in_flight fits.2

  pub accepted_condition-Says :
      let a = accepted_condition g k in SaysAccepted g id ts a.status a.reason a.message
  unfolding accepted_condition
  accepted_condition-Says =
      let says = λ (a : Condition). SaysAccepted g id ts a.status a.reason a.message in
      given says k.has_tickets (λ h. SaysAccepted.created (some_task h))
        (λ h.
          given says g.cancelled (λ c. SaysAccepted.called_off (no_task h) c)
            (λ c. SaysAccepted.no_tasks_yet (no_task h) c))

  abbrev IsBlamed : Condition → Type 0
  IsBlamed v = Blames g id ts v.reason v.message

  verified_settled-Blames :
      (r f : Option Ticket)
      → r ≡ first_of (denied id) ts
      → f ≡ first_of (lost id) ts
      → let v = verified_settled g r f in Blames g id ts v.reason v.message
  verified_settled-Blames r f at_r at_f =
      given IsBlamed g.budget_exceeded (λ b. Blames.over_budget b) (λ b. within r f b at_r at_f)
    where
      within :
          (r f : Option Ticket)
          → g.budget_exceeded ≡ false
          → r ≡ first_of (denied id) ts
          → f ≡ first_of (lost id) ts
          → IsBlamed (elim r [
            | some r ↦
                cond_false ConditionType.verified "ApprovalDenied"
                  (str_append r.id " was rejected at the approval gate")
            | none ↦ elim f [
              | some t ↦ cond_false ConditionType.verified "TaskFailed" (failure_message t)
              | none ↦ cond_false ConditionType.verified "WorkInProgress" ""
            ]
          ])
      within (some t) f b at_r at_f = Blames.turned_down t b (sym at_r)
      within none (some t) b at_r at_f =
          let spared = first_of-Has (denied id) ts (sym at_r) in
          given (λ m. Blames g id ts "TaskFailed" m) (not (t.last_fail_reason == ""))
            (λ h.
              Blames.gave_up_because t b spared (sym at_f)
                (differs t.last_fail_reason "" (wrong (t.last_fail_reason == "") h)))
            (λ h.
              Blames.gave_up t b spared (sym at_f)
                (same_text t.last_fail_reason "" (right (t.last_fail_reason == "") h)))
      within none none b at_r at_f = Blames.unknown_child b (first_of-Has (lost id) ts (sym at_f))

  pub verified_condition-Says :
      (done : Bool)
      → let v = verified_condition g done k in SaysVerified g id ts done v.status v.reason v.message
  unfolding verified_condition
  verified_condition-Says true = SaysVerified.all_merged
  verified_condition-Says false =
      let says = λ (v : Condition). SaysVerified g id ts false v.status v.reason v.message in
      given says g.cancelled (λ c. SaysVerified.called_off c)
        (λ c.
          given says (not k.has_tickets)
            (λ h. SaysVerified.no_tasks_yet c (no_task (wrong k.has_tickets h)))
            (λ h.
              given says k.is_parked (λ p. SaysVerified.waiting c (some_parked p))
                (λ p.
                  given says k.in_flight
                    (λ w. SaysVerified.in_progress c (none_parked p) (some_working w))
                    (λ w.
                      settles c (some_task (right k.has_tickets h)) (none_parked p)
                        (none_working w)))))
    where
      settles :
          g.cancelled ≡ false
          → Has (of_goal id) ts
          → (Has (parked id) ts → ⊥)
          → (Has (working id) ts → ⊥)
          → let v = verified_settled g k.first_rejected k.first_failed in
            SaysVerified g id ts false v.status v.reason v.message
      settles c has p w =
          subst
            (λ (x : ConditionStatus).
              let v = verified_settled g k.first_rejected k.first_failed in
              SaysVerified g id ts false x v.reason v.message)
            (sym (is_no g k.first_rejected k.first_failed))
            (SaysVerified.settled c has p w
              (verified_settled-Blames k.first_rejected k.first_failed fits.4 fits.3))

  pub complete_condition-Says :
      (done : Bool) (o : Outcome)
      → let c = complete_condition g done k o in SaysComplete g id ts o done c.status c.reason
  unfolding complete_condition
  complete_condition-Says done cancelled =
      given (λ (c : Condition). SaysComplete g id ts cancelled done c.status c.reason)
        (k.in_flight || k.is_parked)
        (λ h. SaysComplete.cancelling (elim (Bool-cases k.in_flight) [
          | inl w ↦ inl (some_working w)
          | inr w ↦ inr (some_parked (ground (arith, h, w)))
        ]))
        (λ h.
          SaysComplete.called_off (none_working (ground (arith, h)))
            (none_parked (ground (arith, h))))
  complete_condition-Says done merged = SaysComplete.landed
  complete_condition-Says done delivered = SaysComplete.delivers
  complete_condition-Says done failed = SaysComplete.fails
  complete_condition-Says done queued = SaysComplete.queues
  complete_condition-Says done awaiting_approval = SaysComplete.waits
  complete_condition-Says false running = SaysComplete.runs (inl refl)
  complete_condition-Says true running =
      let says = λ (c : Condition). SaysComplete g id ts running true c.status c.reason in
      given says (not (g.branch == "") && not (g.delivery_error == ""))
        (λ h.
          SaysComplete.refused (differs g.branch "" (ground (arith, h)))
            (differs g.delivery_error "" (ground (arith, h))))
        (λ h.
          given says (not (g.branch == ""))
            (λ b.
              SaysComplete.pending (differs g.branch "" (wrong (g.branch == "") b))
                (same_text g.delivery_error "" (ground (arith, h, b))))
            (λ b. SaysComplete.runs (inr (same_text g.branch "" (right (g.branch == "") b)))))

module _ (g : Goal) (id : String) (ts : List Ticket) where
  due :
      (done : Bool)
      → g.delivered ≡ false
      → g.cancelled ≡ false
      → g.delivery_error ≡ ""
      → g.branch ≢ ""
      → let d =
          (if done
            then cond_false ConditionType.delivered "DeliveryPending" ""
            else cond_false ConditionType.delivered "NotVerified" "") in
        SaysDelivered g id ts done d.status d.reason d.message
  due true d c e b = SaysDelivered.due d c e b (inl (refl, refl))
  due false d c e b = SaysDelivered.due d c e b (inr (refl, refl))

  pub delivered_condition-Says :
      (done : Bool)
      → let d = delivered_condition g done in SaysDelivered g id ts done d.status d.reason d.message
  unfolding delivered_condition
  delivered_condition-Says done =
      let says = λ (d : Condition). SaysDelivered g id ts done d.status d.reason d.message in
      given says (g.delivered && not (g.pr_url == ""))
        (λ h. SaysDelivered.opened (ground (arith, h)) (differs g.pr_url "" (ground (arith, h))))
        (λ h.
          given says g.delivered
            (λ d. SaysDelivered.pushed d (same_text g.pr_url "" (ground (arith, h, d))))
            (λ d.
              given says g.cancelled (λ c. SaysDelivered.called_off d c)
                (λ c.
                  given says (not (g.delivery_error == ""))
                    (λ e.
                      SaysDelivered.refused d c
                        (differs g.delivery_error "" (wrong (g.delivery_error == "") e)))
                    (λ e.
                      let clear =
                        same_text g.delivery_error "" (right (g.delivery_error == "") e) in
                      given says (g.branch == "")
                        (λ b. SaysDelivered.no_branch d c clear (same_text g.branch "" b))
                        (λ b. due done d c clear (differs g.branch "" b))))))
