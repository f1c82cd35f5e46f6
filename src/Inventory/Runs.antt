-- ===== src/Inventory/Runs.antt =====
-- The transactions of the inventory service, and the stores that they lead to: the events of the topic,
-- the ticks of `Work`, and the requests with a key.
use logicore_wms.Base.{ℕ, String, Bool, true, some, List, [], ◌∷◌, ◌≡◌, subst}
use logicore_wms.Platform.Types.{Context, Result, ok, err}
use logicore_wms.Platform.Json.{Payload}
use logicore_wms.Platform.Tx.{Store, Tx, Event, lift, lock, ◌>>◌, ◌>>=◌}
use logicore_wms.Platform.Tx.Steps.{bind-then, lock-tables}
use logicore_wms.Platform.Inbox.{process}
use logicore_wms.Platform.Commands.{Codec, command}
use logicore_wms.Platform.Moves.{Moves, Moves-transaction, Moves-process, Moves-command}
use logicore_wms.Inventory.Stock.{Stock}
use logicore_wms.Inventory.Tables.{Tables, Reservation}
use logicore_wms.Inventory.Capacity.{Catalog}
use logicore_wms.Inventory.Changes.{Receive, Change, Action, receive, change}
use logicore_wms.Inventory.Fulfil.{release}
use logicore_wms.Platform.Http.{body}
use logicore_wms.Inventory.Routes.{Request, post_receive, post_change}
use logicore_wms.Inventory.Service.{handle, due, expire_one, expire_all, expire}

-- What the service does to its database: an event of the topic, a tick of the expiry worker, or a
-- request with a key. Each may have a clock and identifiers of its own, and other
-- answers from the other services.
pub data Step (receipts : Codec Receive Stock) (changes : Codec (Action × Change) Payload)
    : Store Tables → Store Tables → Type 0 where
  consumed :
      (c : Context) (cat : Catalog) (e : Event) (s : Store Tables)
      → ((k : ℕ) → c.cast (c.text k) ≡ some k)
      → Step receipts changes s (process c (handle cat) e s).1
  ticked : (c : Context) (s : Store Tables) → Step receipts changes s (expire c s)
  received :
      (c : Context) (cat : Catalog) (q : Request Receive) (s : Store Tables)
      → ((k : ℕ) → c.cast (c.text k) ≡ some k)
      → Step receipts changes s (post_receive c cat receipts q s).1
  changed :
      (c : Context) (cat : Catalog) (action : Action) (q : Request Change) (s : Store Tables)
      → ((k : ℕ) → c.cast (c.text k) ≡ some k)
      → Step receipts changes s (post_change c cat changes action q s).1

-- The states that any number of steps lead to.
pub data Run (receipts : Codec Receive Stock) (changes : Codec (Action × Change) Payload)
    : Store Tables → Store Tables → Type 0 where
  rest : (s : Store Tables) → Run receipts changes s s
  step :
      {s s1 s2 : Store Tables}
      → Run receipts changes s s1
      → Step receipts changes s1 s2
      → Run receipts changes s s2

-- A preorder of the tables that every operation of the service moves along.
pub record Direction (R : Tables → Tables → Type 0) : Type 0 where
  pub stay : (t : Tables) → R t t
  pub follow : {t t1 t2 : Tables} → R t t1 → R t1 t2 → R t t2
  pub handles :
      (c : Context) (cat : Catalog)
      → ((k : ℕ) → c.cast (c.text k) ≡ some k)
      → (e : Event) → Moves R (handle cat c e)
  pub releases : (c : Context) (id : String) (expiring : Bool) → Moves R (release c id expiring)
  pub receives : (c : Context) (cat : Catalog) (q : Receive) → Moves R (receive c cat q)
  pub changes :
      (c : Context) (cat : Catalog)
      → ((k : ℕ) → c.cast (c.text k) ≡ some k)
      → (action : Action) (q : Change) → Moves R (change c cat action q)

module _ {R : Tables → Tables → Type 0} (d : Direction R) where
  pub expire_one-moves :
      (c : Context) (r : Reservation) (s : Store Tables) → R s.tables (expire_one c r s).1.tables
  expire_one-moves c r s = Moves-transaction R d.stay body s
    where
      body : Moves R (lock c (c.text r.warehouse_id) >> release c (c.text r.id) true)
      body = record {
        apply = λ s a s' h. bind-then s (lock c (c.text r.warehouse_id)) _ h λ _ s1 h1 h.
            subst (λ t. R t s'.tables) (lock-tables s c _ h1)
              ((d.releases c (c.text r.id) true).apply s1 a s' h);
      }

  pub expire_all-moves :
      (c : Context) (batch : List Reservation) (s : Store Tables)
      → R s.tables (expire_all c batch s).tables
  unfolding expire_all
  expire_all-moves c [] s = d.stay s.tables
  expire_all-moves c (r ∷ batch) s =
      d.follow (expire_one-moves c r s) (expire_all-moves c batch (expire_one c r s).1)

  expire-moves : (c : Context) (s : Store Tables) → R s.tables (expire c s).tables
  unfolding expire
  expire-moves c s = expire_all-moves c (due c s.tables) s

  -- A request whose body is read, and then runs under its key.
  posted-moves :
      {B Q Answer : Type 0} (c : Context) (codec : Codec Q Answer) (q : Request B) (ask : B → Q)
      (fn : B → Tx Tables Answer)
      → ((v : B) → Moves R (fn v))
      → (s : Store Tables)
      → R s.tables
          ((lift (body q.decoded q.at_end) >>= λ v. command codec q.key (ask v) (fn v)) s).1.tables
  posted-moves {B} c codec q ask fn moves s = go (body q.decoded q.at_end)
    where
      go :
          (r : Result B)
          → R s.tables ((lift r >>= λ v. command codec q.key (ask v) (fn v)) s).1.tables
      go (err e) = d.stay s.tables
      go (ok v) = Moves-command R d.stay codec q.key (ask v) (fn v) (moves v) s

  module _ {receipts : Codec Receive Stock} {changes : Codec (Action × Change) Payload} where
    Step-moves : {s s' : Store Tables} → Step receipts changes s s' → R s.tables s'.tables
    unfolding post_receive post_change
    Step-moves (consumed c cat e s reads) =
        Moves-process R d.stay (handle cat) c e (d.handles c cat reads e) s
    Step-moves (ticked c s) = expire-moves c s
    Step-moves (received c cat q s reads) =
        posted-moves c receipts q (λ v. v) (λ v. receive c cat v) (λ v. d.receives c cat v) s
    Step-moves (changed c cat action q s reads) =
        posted-moves c changes q (λ v. (action, v)) (λ v. change c cat action v)
          (λ v. d.changes c cat reads action v) s

    -- Whatever the service works off, in any order and whether or not it fails.
    pub Run-moves : {s s' : Store Tables} → Run receipts changes s s' → R s.tables s'.tables
    Run-moves (rest s) = d.stay s.tables
    Run-moves (step r one) = d.follow (Run-moves r) (Step-moves one)
