-- ===== src/PhoneSession/Final.antt =====
-- src/services/phoneVerificationService.ts: sessions that have left the pending state.
use mathlib.Core.Path.{subst, sym, ap}
use leader_product_api.Base.{
  ℕ, ◌≡◌, inl, inr, Bool, true, false, Member, arith, Bool-cases, count_unique, Member-change_kept,
}
use leader_product_api.PhoneSession.{
  Session, Db, Deps, cancelled, cancelled_by_user, replaced_by_new_request, is_pending, pending_of,
  has_id, close, update_sessions, replace_session, new_session, cancel_phone_verification_session,
}
use leader_product_api.PhoneSession.Telegram.{
  attach_telegram, verify_session, waits_for_telegram, commit_telegram,
}
use leader_product_api.PhoneSession.Max.{attach_max, waits_for_max, commit_max}
use leader_product_api.PhoneSession.CallExits.{
  default_provider, start_exits, get_exits, bind_telegram_exits, bind_max_exits,
}
use leader_product_api.PhoneSession.Exits.{telegram_exits, max_exits}
use leader_product_api.PhoneSession.Consistent.{IsConsistent}
use leader_product_api.PhoneSession.History.{
  Call, start, get, cancel, bind_telegram, bind_max, verify_telegram, verify_max, step, Reach, here,
  next, Reach-IsConsistent,
}

waits_pending : (n : ℕ) (r : Session) → waits_for_telegram n r ≡ true → is_pending r.status ≡ true
waits_pending n r h = ground arith

max_pending : (n : ℕ) (r : Session) → waits_for_max n r ≡ true → is_pending r.status ≡ true
max_pending n r h = ground arith

module _ (d : Deps) (now : ℕ) (db : Db) (v : IsConsistent db) (s : Session)
    (stored : Member s db.sessions) (settled : is_pending s.status ≡ false) where
  -- A write to the rows that pass a test which holds of pending sessions only.
  kept_by :
      (p : Session → Bool) (f : Session → Session)
      → p s ≡ false
      → Member s (update_sessions d p f db).sessions
  kept_by p f h =
      subst (Member s) (sym (d.sessions_table.update_many_rows p f db.sessions))
        (Member-change_kept p f db.sessions s stored h)

  other_id :
      (r : Session) → Member r db.sessions → is_pending r.status ≡ true → has_id r.id s ≡ false
  other_id r m h = elim (Bool-cases (has_id r.id s)) [
    | inr e ↦ e
    | inl e ↦
        let same : s ≡ r =
          count_unique (has_id r.id) db.sessions s r (v.session_table.session_ids r.id) stored e m
            (ground arith) in
        cc (ap (λ (x : Session). is_pending x.status) same)
  ]

  kept_by_id :
      (r : Session) (f : Session → Session)
      → Member r db.sessions
      → is_pending r.status ≡ true
      → Member s (update_sessions d (has_id r.id) f db).sessions
  kept_by_id r f m h = kept_by (has_id r.id) f (other_id r m h)

  kept_by_start : (n : Session) → Member s (replace_session d n db).sessions
  unfolding replace_session
  kept_by_start n = subst (Member s) (sym (d.sessions_table.create_rows n _)) (
      inr (kept_by (pending_of n.user_id) (close cancelled replaced_by_new_request) (ground arith)))

  kept_by_cancel :
      (user_id session_id : ℕ)
      → Member s (cancel_phone_verification_session d user_id session_id db).0.sessions
  unfolding cancel_phone_verification_session
  kept_by_cancel user_id session_id = kept_by _ (close cancelled cancelled_by_user) (ground arith)

  -- A session that is no longer pending stands in the table unchanged after any call.
  pub settled_kept : (c : Call) → Member s (step d now c db).sessions
  unfolding step commit_telegram commit_max
  settled_kept (start id raw user_id phone_raw chosen) =
      start_exits (λ o. Member s o.0.sessions) d now db id raw user_id phone_raw chosen
        (λ e _. stored)
        (λ phone _.
          kept_by_start (new_session d now id user_id phone (default_provider chosen) raw))
  settled_kept (get user_id session_id) =
      get_exits (λ o. Member s o.sessions) d now db stored (λ r m p _. kept_by_id r _ m p) user_id
        session_id
  settled_kept (cancel user_id session_id) = kept_by_cancel user_id session_id
  settled_kept (bind_telegram token account chat) =
      bind_telegram_exits (λ o. Member s o.sessions) d now db stored (λ r m p _. kept_by_id r _ m p)
        token account chat λ n r m p. kept_by_id r (attach_telegram d n chat) m p
  settled_kept (bind_max token account chat) =
      bind_max_exits (λ o. Member s o.sessions) d now db stored (λ r m p _. kept_by_id r _ m p)
        token account chat λ n r m p. kept_by_id r (attach_max d n chat) m p
  settled_kept (verify_telegram account phone username) =
      telegram_exits (λ o. Member s o.0.sessions) d db now account phone username (λ _ _. stored)
        (λ n r status reason m w _. kept_by_id r (close status reason) m (waits_pending n r w))
        λ n p digits r user f _.
          kept_by_id r (verify_session now) f.session_stored (waits_pending n r f.session_waits)
  settled_kept (verify_max account phone username) =
      max_exits (λ o. Member s o.0.sessions) d db now account phone username (λ _ _. stored)
        (λ n r status reason m w _. kept_by_id r (close status reason) m (max_pending n r w))
        λ n p digits r user f _ _.
          kept_by_id r (verify_session now) f.session_stored (max_pending n r f.session_waits)

-- So it stands there after any history.
pub Reach-settled :
    (d : Deps) {db db' : Db} (s : Session)
    → IsConsistent db
    → Member s db.sessions
    → is_pending s.status ≡ false
    → Reach d db db'
    → Member s db'.sessions
Reach-settled d s v m h here = m
Reach-settled d s v m h (next {db'} now c r f) =
    settled_kept d now db' (Reach-IsConsistent d v r) s (Reach-settled d s v m h r) h c
