-- ===== src/Api/Sound.antt =====
-- What holds of the whole database, whatever is requested: the invariant of the errands, and the one of
-- the notifications.
use order_run_be.Base.{ℕ, Bool, true, false, String, List, Option, none, some, Result, ok, err}
use order_run_be.Errors.{Error}
use order_run_be.Models.User.{User}
use order_run_be.Models.Notification.{Notification}
use order_run_be.Security.{get_current_user}
use order_run_be.Schemas.Errands.{FieldError}
use order_run_be.Consistency.{Consistent}
use order_run_be.Delivery.Drain.{Round}
use order_run_be.Delivery.Kept.{Orderly}
use order_run_be.Delivery.Direct.{kept_by}
use order_run_be.Delivery.Worker.{flush_pending, send_batch, committed}
use order_run_be.Delivery.Upkeep.{flush_pending-Orderly}
use order_run_be.Api.{
  App, Visit, Response, success, failure, crash, Route, reply, reply_empty, identified, secured,
  given, checked, require, flushing,
}
use order_run_be.Api.Calls.{told}
use order_run_be.Api.Errands.{created}
use order_run_be.Api.Messages.{sent}
use order_run_be.Api.Aside.{IsAside}
use order_run_be.Db.{Db}

pub record IsSound (db : Db) : Type 0 where
  pub consistent : Consistent db
  pub orderly : Orderly db

pub aside-IsSound : (db after : Db) → IsAside db after → IsSound db → IsSound after
aside-IsSound db after (p, o, n) s = record {
  consistent = rw (p, o) s.consistent;
  orderly = rw n s.orderly;
}

-- The worker
pub committed-Consistent :
    (db : Db) (rows : Option (List Notification)) → Consistent db → Consistent (committed db rows)
committed-Consistent db none h = h
committed-Consistent db (some rows) h = h

flush_pending-IsSound :
    (round : Round) (db : Db) → IsSound db → IsSound (flush_pending round.0 round.1 db)
unfolding flush_pending send_batch
flush_pending-IsSound round db s = record {
  consistent = committed-Consistent db _ s.consistent;
  orderly = flush_pending-Orderly round.0 round.1 db s.orderly;
}

-- The parts of a route
pub told-IsSound : {A : Type 0} (x : Response A × Db) → IsSound x.1 → IsSound (told x).1
told-IsSound (response, db) s = s

pub reply-IsSound :
    {A : Type 0} (status : ℕ) (message : Option String) (x : Result Error A × Db)
    → IsSound x.1
    → IsSound (reply status message x).1
reply-IsSound status message (ok a, db) s = s
reply-IsSound status message (err e, db) s = s

pub reply_empty-IsSound :
    {A : Type 0} (status : ℕ) (message : Option String) (x : Result Error A × Db)
    → IsSound x.1
    → IsSound (reply_empty status message x).1
reply_empty-IsSound status message (ok a, db) s = s
reply_empty-IsSound status message (err e, db) s = s

pub flushing-IsSound :
    {A : Type 0} (round : Round) (x : Response A × Db) → IsSound x.1 → IsSound (flushing round x).1
flushing-IsSound round (success status body message, db) s = flush_pending-IsSound round db s
flushing-IsSound round (failure status code message, db) s = s
flushing-IsSound round (crash, db) s = s

pub created-IsSound :
    (app : App) (visit : Visit) (x : Result Error ℕ × Db)
    → IsSound x.1
    → IsSound (created app visit x).1
created-IsSound app visit (ok id, db) s = s
created-IsSound app visit (err e, db) s = s

pub sent-IsSound :
    (app : App) (visit : Visit) (db : Db) (x : Option (Notification × Db))
    → IsSound db
    → IsSound (kept_by db x)
    → IsSound (sent app visit db x).1
sent-IsSound app visit db none s k = s
sent-IsSound app visit db (some (row, db')) s k = k

module _ {A : Type 0} (db : Db) (s : IsSound db) where
  identified-IsSound :
      (caller : Result Error User) (route : User → Route A)
      → ((user : User) → IsSound (route user db).1)
      → IsSound (identified caller route db).1
  identified-IsSound (ok user) route h = h user
  identified-IsSound (err e) route h = s

  pub secured-IsSound :
      (app : App) (visit : Visit) (route : User → Route A)
      → ((user : User) → IsSound (route user db).1)
      → IsSound (secured app visit route db).1
  unfolding secured
  secured-IsSound app visit route h =
      identified-IsSound (get_current_user app.jwt (visit.clock 0) visit.token db) route h

  pub given-IsSound :
      {B : Type 0} (body : Option B) (route : B → Route A)
      → ((b : B) → IsSound (route b db).1)
      → IsSound (given body route db).1
  given-IsSound none route h = s
  given-IsSound (some b) route h = h b

  pub checked-IsSound :
      {B : Type 0} (body : Result (List FieldError) B) (route : B → Route A)
      → ((b : B) → IsSound (route b db).1)
      → IsSound (checked body route db).1
  checked-IsSound (err es) route h = s
  checked-IsSound (ok b) route h = h b

  pub require-IsSound :
      (b : Bool) (route : Route A) → IsSound (route db).1 → IsSound (require b route db).1
  require-IsSound true route h = h
  require-IsSound false route h = s
