-- ===== src/Device/Confirmed.antt =====
-- mount-manager/device-utils.go: what `VerifyDevicePath` knows when it says that a path is right,
-- and what it does not do for a path that does not exist.
use csi_runtime.Base.{
  ℕ, zero, suc, String, ◌≡◌, ◌≢◌, refl, ap, ◌∙◌, Bool, true, false, not, ◌&&◌, List, [], ◌∷◌,
  Result, ok, err, arith, inl, inr, str_eq, eq_iff,
}
use csi_runtime.Base.Prog.{ret, bind, ask, succeed, fail, map_err, when◌then◌else◌, ◌>>=◌}
use csi_runtime.Base.Exec.{exec}
use csi_runtime.Base.Yields.{
  Newest, Yields, Yields-ret, Yields-when, Yields->>=, Yields-weaken, Yields-any, Yields-map_err,
  Leaves-Yields,
}
use csi_runtime.Rpc.{Error}
use csi_runtime.Device.Reads.{Reads, AfterRead, serial_reads}
use csi_runtime.Device.Calls.{
  Command, Printed, Stat, present, absent, failed, stat, eval_symlinks, combined_output, Event,
  Oracle,
}
use csi_runtime.Device.Verify.{
  repair, check_serial, check_existing, check_device, path_exists, path_found, or_wrap,
  verify_device_path, rounds, Poll, PollsRounds,
}

-- The last three calls found something at the path, found the device that it links to, and read the
-- serial number of that device: it is the device name, which is not empty.
pub record Confirmed (path name : String) (h : List Event) : Type 0 where
  pub device : String
  pub command : Command
  pub answer : Printed
  pub before : List Event
  pub last :
      h
      ≡ (combined_output command, answer)
        ∷ (eval_symlinks path, ok device)
        ∷ (stat path, present)
        ∷ before
  pub reads : Reads device command answer name
  pub named : name ≢ ""

or_wrap_ok :
    {A : Type 0} (m : String) (texts : List String) (r : Result Error A) (a : A)
    → or_wrap m texts r ≡ ok a
    → r ≡ ok a
or_wrap_ok m texts (ok b) a e = ground arith
or_wrap_ok m texts (err x) a e = absurd (cc e)

found_present : (s : Stat) (b : Bool) → path_found s ≡ ok b → b ≡ true → s ≡ present
found_present present b e t = refl
found_present absent b e t = ground arith
found_present (failed x) b e t = absurd (cc e)

module _ (path name : String) where
  exists_yields :
      Yields
        (λ _. Unit {0})
        (path_exists path)
        (λ b h. b ≡ true → Newest ((stat path, present) ∷ []) h)
  unfolding path_exists exec bind ask
  exists_yields = record {
    yields = λ o h b p e t. record {
      before = h;
      newest = ap (λ s. (stat path, s) ∷ h) (found_present (o h (stat path)) b e t);
    };
  }

  links_yields :
      (es : List Event) (m : String) (texts : List String)
      → Yields
          (Newest es)
          (bind (ask (eval_symlinks path)) (λ r. ret (or_wrap m texts r)))
          (λ dev. Newest ((eval_symlinks path, ok dev) ∷ es))
  unfolding exec bind ask
  links_yields es m texts = record {
    yields = λ o h dev n e. record {
      before = n.before;
      newest =
          rw (or_wrap_ok m texts (o h (eval_symlinks path)) dev e)
            (ap (λ x. (eval_symlinks path, ok dev) ∷ x) n.newest);
    };
  }

  repair_yields :
      {P : List Event → Type 0} {S : List Event → Type 0} (m : String)
      → Yields P (repair m name) (λ b h. b ≡ true → S h)
  unfolding repair succeed
  repair_yields {S = S} m =
      Yields->>= {Q = λ _ _. Unit {0}} _ _ (Yields-any _)
        λ _. Yields-ret (ok false) λ h b p e t. absurd (cc (e, t))

  confirm :
      (dev serial : String) (h : List Event)
      → not (str_eq serial "") && str_eq serial name ≡ true
      → AfterRead
          (Newest ((eval_symlinks path, ok dev) ∷ (stat path, present) ∷ []))
          dev
          (ok serial)
          h
      → Confirmed path name h
  confirm dev serial h same (inl (e, n)) = ground (arith, same, e, eq_iff serial "")
  confirm dev serial h same (inr l) =
      let is : serial ≡ name = ground (arith, eq_iff serial name, same) in
      record {
        device = dev;
        command = l.command;
        answer = l.answer;
        before = l.was.before;
        last = l.last ∙ ap (λ x. (combined_output l.command, l.answer) ∷ x) l.was.newest;
        reads = l.reads name (ap ok is);
        named = λ e. ground (arith, eq_iff serial "", same, is, e);
      }

  check_yields :
      Yields (λ _. Unit {0}) (check_device path name) (λ b h. b ≡ true → Confirmed path name h)
  unfolding check_device check_existing check_serial succeed
  check_yields = Yields->>= _ _ (Yields-map_err _ _ exists_yields) λ found.
      Yields-when found _ _
        (λ t.
          Yields-when (str_eq path "") _ _ (λ _. repair_yields _)
            λ _.
              Yields-weaken _ (λ h n. n t)
                (Yields->>= _ _ (links_yields _ _ _) λ dev.
                  Yields->>= _ _ (Yields-map_err _ _ (Leaves-Yields _ (serial_reads dev))) λ serial.
                    Yields-when _ _ _
                      (λ same. Yields-ret (ok true) λ h b a e u. confirm dev serial h same a)
                      (λ _. repair_yields _)))
        (λ _. Yields-ret (ok false) λ h b p e t. absurd (cc (e, t)))

  rounds_yield :
      (n : ℕ)
      → Yields (λ _. Unit {0}) (rounds n (check_device path name)) (λ _. Confirmed path name)
  unfolding rounds succeed fail
  rounds_yield zero = Yields-ret (err _) λ h b p e. absurd (cc e)
  rounds_yield (suc n) = Yields->>= _ _ check_yields λ done.
      Yields-when done _ _ (λ t. Yields-ret (ok tt) λ h u c e. c t)
        (λ _. Yields-weaken _ (λ h c. tt) (rounds_yield n))

  poll_yields :
      (poll : Poll)
      → PollsRounds poll
      → Yields (λ _. Unit {0}) (poll (check_device path name)) (λ _. Confirmed path name)
  poll_yields poll polls = record {
    yields = λ o h u p e.
        let (n, same) = polls o (check_device path name) h in
        rw same ((rounds_yield n).yields o h u p (rw same at e));
  }

-- When `wait.Poll` runs its condition some number of times and `VerifyDevicePath` returns without an
-- error, it returns true, and its last calls confirmed the path.
pub verify_ok :
    (poll : Poll) (o : Oracle) (path name : String) (h : List Event) (b : Bool)
    → PollsRounds poll
    → (exec o (verify_device_path poll path name) h).0 ≡ ok b
    → (b ≡ true) × Confirmed path name (exec o (verify_device_path poll path name) h).1
unfolding verify_device_path succeed
verify_ok poll o path name h b polls e =
    (Yields->>= {Q = λ _ _. Unit {0}} {S = λ a h'. (a ≡ true) × Confirmed path name h'}
        {P = λ _. Unit {0}} _ _ (Yields-any _)
        λ _.
          Yields->>= {Q = λ _. Confirmed path name} _ _
            (Yields-map_err _ _ (poll_yields path name poll polls))
            λ _. Yields-ret (ok true) λ h' a c same. (cc same, c)).yields
      o h b tt e

-- For a path at which there is nothing, the empty path among them, a round of `VerifyDevicePath`
-- only looks for it: it does not try to repair.
missing_not_repaired :
    (o : Oracle) (path name : String) (h : List Event)
    → o h (stat path) ≡ absent
    → exec o (check_device path name) h ≡ (ok false, (stat path, absent) ∷ h)
unfolding exec check_device path_exists map_err ◌>>=◌ bind ask succeed when◌then◌else◌
missing_not_repaired o path name h e = ground (arith, e)
