-- ===== src/Notices/Drained.antt =====
-- The mail worker (mail-outbox.service.ts) comes to the end of what waits.
use digitalreception.Base.{
  ℕ, ◌+◌, ◌≤◌, ◌≡◌, refl, arith, Bool, List, ltb, filter, has_key, Unique, take, sort_by, total,
  total-update-same, work, work-keeps, Worker, run-total, run-progress, query-Ready, query-Unique,
  query-finds, ap, ◌∙◌,
}
use digitalreception.Invitations.Store.{Invitation}
use digitalreception.Visits.Store.{Visit, Mail}
use digitalreception.Parcels.Desk.{Parcel}
use digitalreception.Notices.Mail.{
  Outbox, batch, is_queued, is_queued_parcel, earlier, waiting_visits, send_invitation, send_parcel,
  send_invitations, send_parcels,
}
use digitalreception.Notices.Turns.{
  mail_left, invitation_left, parcel_left, Turn, send_invitation-turn, send_parcel-turn,
}

abbrev pub visit_id : Visit → ℕ
visit_id v = v.id

abbrev visit_rows : Outbox → List Visit
visit_rows db = db.visits

-- The attempts left in one of the queues of the visits.
abbrev pub queue_left : (Visit → Mail) → Outbox → ℕ
queue_left mail db = total (λ v. mail_left (mail v)) db.visits

-- One of the queues of the visits, with the two that it leaves alone.
module _ (mail other another : Visit → Mail) (handle : Visit → Outbox → Outbox)
    (turn : (v : Visit) (db : Outbox) → Turn mail other another (handle v) v db) where
  visit_worker : Worker visit_id (λ v. mail_left (mail v)) visit_rows
  visit_worker = record {
    query = waiting_visits mail;
    handle = handle;
    lightens = λ v db busy.
        let (f, e, same, o, a, less) = turn v db in (f, ap visit_rows e, same, less busy);
    ready = λ db.
        query-Ready visit_id (λ v. mail_left (mail v)) (λ v. is_queued (mail v).status) earlier
          batch (λ v h. ground (arith, h)) db.visits;
    unique = λ db.
        query-Unique visit_id (λ v. mail_left (mail v)) (λ v. is_queued (mail v).status) earlier
          batch db.visits;
  }

  pub visits-progress :
      (n : ℕ) (db : Outbox)
      → Unique visit_id db.visits
      → queue_left mail db ≤ n + 1
      → (queue_left mail (work handle (waiting_visits mail db) db) ≤ n)
        × Unique visit_id (work handle (waiting_visits mail db) db).visits
  unfolding visit_worker
  visits-progress n db u enough = (
    run-progress visit_id (λ v. mail_left (mail v)) visit_rows visit_worker n db u
        (query-finds visit_id (λ v. mail_left (mail v)) (λ v. is_queued (mail v).status) earlier
          batch 99 refl (λ v h. ground (arith, h)) db.visits)
        enough,
    (run-total visit_id (λ v. mail_left (mail v)) visit_rows visit_worker db u).1,
  )

  pub visits-others :
      (ds : List Visit) (db : Outbox)
      → (queue_left other (work handle ds db) ≡ queue_left other db)
        × (queue_left another (work handle ds db) ≡ queue_left another db)
        × ((work handle ds db).invitations ≡ db.invitations)
        × ((work handle ds db).parcels ≡ db.parcels)
  visits-others ds db = (
    work-keeps (queue_left other) handle ds db (λ v x.
        let (f, e, same, o, a, less) = turn v x in
        ap (queue_left other) e
        ∙ total-update-same (λ y. mail_left (other y)) (has_key visit_id v.id) f x.visits
            (λ y. ap mail_left (o y))),
    work-keeps (queue_left another) handle ds db (λ v x.
        let (f, e, same, o, a, less) = turn v x in
        ap (queue_left another) e
        ∙ total-update-same (λ y. mail_left (another y)) (has_key visit_id v.id) f x.visits
            (λ y. ap mail_left (a y))),
    work-keeps (λ x. x.invitations) handle ds db
        (λ v x. ap (λ (y : Outbox). y.invitations) (turn v x).1),
    work-keeps (λ x. x.parcels) handle ds db (λ v x. ap (λ (y : Outbox). y.parcels) (turn v x).1),
  )

abbrev pub invitation_id : Invitation → ℕ
invitation_id x = x.id

abbrev invitation_rows : Outbox → List Invitation
invitation_rows db = db.invitations

abbrev pub invitation_waits : Invitation → Bool
invitation_waits x = is_queued x.email_status

module _ (send : Invitation → Bool) (clock : Invitation → ℕ)
    (older : Invitation → Invitation → Bool) where
  invitation_worker : Worker invitation_id invitation_left invitation_rows
  invitation_worker = record {
    query = λ db. take batch (sort_by older (filter invitation_waits db.invitations));
    handle = send_invitation send clock older;
    lightens = λ x db busy.
        let (f, e, same, less) = send_invitation-turn send clock older x db in
        (f, ap invitation_rows e, same, less busy);
    ready = λ db.
        query-Ready invitation_id invitation_left invitation_waits older batch
          (λ x h. ground (arith, h)) db.invitations;
    unique = λ db.
        query-Unique invitation_id invitation_left invitation_waits older batch db.invitations;
  }

  pub send_invitations-progress :
      (n : ℕ) (db : Outbox)
      → Unique invitation_id db.invitations
      → total invitation_left db.invitations ≤ n + 1
      → (total invitation_left (send_invitations send clock older db).invitations ≤ n)
        × Unique invitation_id (send_invitations send clock older db).invitations
  unfolding send_invitations invitation_worker
  send_invitations-progress n db u enough = (
    run-progress invitation_id invitation_left invitation_rows invitation_worker n db u
        (query-finds invitation_id invitation_left invitation_waits older batch 99 refl
          (λ x h. ground (arith, h)) db.invitations)
        enough,
    (run-total invitation_id invitation_left invitation_rows invitation_worker db u).1,
  )

  pub send_invitations-others :
      (db : Outbox)
      → ((send_invitations send clock older db).visits ≡ db.visits)
        × ((send_invitations send clock older db).parcels ≡ db.parcels)
  unfolding send_invitations
  send_invitations-others db =
      let rows = take batch (sort_by older (filter invitation_waits db.invitations)) in
      (
        work-keeps (λ x. x.visits) (send_invitation send clock older) rows db
            (λ v x. ap (λ (y : Outbox). y.visits) (send_invitation-turn send clock older v x).1),
        work-keeps (λ x. x.parcels) (send_invitation send clock older) rows db
            (λ v x. ap (λ (y : Outbox). y.parcels) (send_invitation-turn send clock older v x).1),
      )

abbrev pub parcel_id : Parcel → ℕ
parcel_id x = x.id

abbrev parcel_rows : Outbox → List Parcel
parcel_rows db = db.parcels

abbrev pub parcel_waits : Parcel → Bool
parcel_waits x = is_queued_parcel x.email_status

module _ (send : Parcel → Bool) where
  parcel_worker : Worker parcel_id parcel_left parcel_rows
  parcel_worker = record {
    query = λ db.
        take batch
          (sort_by (λ a b. ltb a.received_at b.received_at) (filter parcel_waits db.parcels));
    handle = send_parcel send;
    lightens = λ x db busy.
        let (f, e, same, less) = send_parcel-turn send x db in
        (f, ap parcel_rows e, same, less busy);
    ready = λ db.
        query-Ready parcel_id parcel_left parcel_waits (λ a b. ltb a.received_at b.received_at)
          batch (λ x h. ground (arith, h)) db.parcels;
    unique = λ db.
        query-Unique parcel_id parcel_left parcel_waits (λ a b. ltb a.received_at b.received_at)
          batch db.parcels;
  }

  pub send_parcels-progress :
      (n : ℕ) (db : Outbox)
      → Unique parcel_id db.parcels
      → total parcel_left db.parcels ≤ n + 1
      → (total parcel_left (send_parcels send db).parcels ≤ n)
        × Unique parcel_id (send_parcels send db).parcels
  unfolding send_parcels parcel_worker
  send_parcels-progress n db u enough = (
    run-progress parcel_id parcel_left parcel_rows parcel_worker n db u
        (query-finds parcel_id parcel_left parcel_waits (λ a b. ltb a.received_at b.received_at)
          batch 99 refl (λ x h. ground (arith, h)) db.parcels)
        enough,
    (run-total parcel_id parcel_left parcel_rows parcel_worker db u).1,
  )

  pub send_parcels-others :
      (db : Outbox)
      → ((send_parcels send db).visits ≡ db.visits)
        × ((send_parcels send db).invitations ≡ db.invitations)
  unfolding send_parcels
  send_parcels-others db =
      let rows =
        take batch
          (sort_by (λ a b. ltb a.received_at b.received_at) (filter parcel_waits db.parcels)) in
      (
        work-keeps (λ x. x.visits) (send_parcel send) rows db
            (λ v x. ap (λ (y : Outbox). y.visits) (send_parcel-turn send v x).1),
        work-keeps (λ x. x.invitations) (send_parcel send) rows db
            (λ v x. ap (λ (y : Outbox). y.invitations) (send_parcel-turn send v x).1),
      )
