-- ===== src/Trade.antt =====
-- SERVER/src/CHANNEL/service/TradeService.h and TradeService.cpp: the table of trade sessions.
-- `m_sessions` maps both participants to one heap object, so the model has a heap: a pointer is an
-- address, `delete` removes it, and using an address that is not there is `fault`. Each critical
-- section of `m_TradeMutex` is one step; `Ready` has two, with `Execute` between them. A `Player*` is
-- the address of the player object, which `start` and the getters take beside the player. The getters,
-- which no answer code can leave, return nothing for a dangling session pointer.
pub mod Offers
pub mod Pairing
pub mod Steps
pub mod Reach
pub mod Lock
mod Running
pub mod Executing
pub mod Database
pub mod Execute
mod Tables
mod Moves
mod Atomic
pub mod Settled
mod Tests
use ll2games_rpg_server.Common.{
  ℕ, suc, Bool, true, false, ◌&&◌, ◌||◌, not, Option, none, some, List, [], ◌==◌, if◌then◌else◌,
  is_some, codes, ◌^◌, arith, ◌-◌,
}
use ll2games_rpg_server.Common.Int.{ℤ, eqb_ℤ, pos, eqb_ℤ_iff}
use ll2games_rpg_server.Common.Keys.{Eq, Dict, lookup, insert, erase, ℤ_eq, ℕ_eq}
use ll2games_rpg_server.Player.{Player, MapInstance, is_alive}

pub record TradeItem : Type 0 where
  pub id : List ℕ
  pub type : List ℕ
  pub amount : ℤ
  pub slot_index : ℤ

pub record TradeSession : Type 0 where
  -- the addresses of the players
  pub a_player : ℕ
  pub b_player : ℕ
  pub a_id : ℤ
  pub b_id : ℤ
  pub a_ready : Bool
  pub b_ready : Bool
  pub executing : Bool
  pub a_items : List TradeItem
  pub b_items : List TradeItem

pub record TradeExecuteData : Type 0 where
  pub a_id : ℤ
  pub b_id : ℤ
  pub a_items : List TradeItem
  pub b_items : List TradeItem

-- `m_sessions`, the objects it points to, and the next address of `new`.
pub record Trades : Type 0 where
  pub sessions : Dict ℤ ℕ
  pub heap : Dict ℕ TradeSession
  pub next : ℕ

-- A call returns -1 with an error text, or a number, or uses a dangling pointer.
pub data Outcome : Type 0 where
  refused : List ℕ → Outcome
  done : ℕ → Outcome
  fault : Outcome

-- What `Ready` goes on with: it answers, or it runs `Execute` for the session at an address.
pub data Readiness : Type 0 where
  answers : Outcome → Readiness
  executes : ℕ → TradeExecuteData → Readiness

-- `new TradeSession()`, filled in by `CreateTradeSession`
abbrev pub new_session : ℕ → ℤ → ℕ → ℤ → TradeSession
new_session a_player a b_player b = record {
  a_player = a_player;
  b_player = b_player;
  a_id = a;
  b_id = b;
  a_ready = false;
  b_ready = false;
  executing = false;
  a_items = [];
  b_items = [];
}

pub create_trade_session : ℕ → ℤ → ℕ → ℤ → Trades → Bool × Trades
create_trade_session a_player a b_player b t =
    if eqb_ℤ a b
    then (false, t)
    else if is_some (lookup a t.sessions) || is_some (lookup b t.sessions)
    then (false, t)
    else (
      true,
      record {
        sessions = insert b t.next (insert a t.next t.sessions);
        heap = insert t.next (new_session a_player a b_player b) t.heap;
        next = suc t.next;
      },
    )

-- The erasures of both participants and the `delete`
pub release : ℕ → TradeSession → Trades → Trades
release address s t = record t {
  sessions = erase s.b_id (erase s.a_id t.sessions);
  heap = erase address t.heap;
}

-- A write through a session pointer
pub store : ℕ → TradeSession → Trades → Trades
store address s t = record t { heap = insert address s t.heap }

abbrev pub same_map : Option MapInstance → Option MapInstance → Bool
same_map (some m) (some n) = m.map_id == n.map_id
same_map _ _ = false

-- `Start` of two players that are not null, each with its address
pub start : ℕ → Player → ℕ → Player → Trades → Outcome × Trades
start requester_at requester accepter_at accepter t =
    let (created, t') = create_trade_session requester_at requester.id accepter_at accepter.id t in
    if eqb_ℤ requester.id accepter.id
    then (refused (codes "Cannot trade with self"), t)
    else if not (is_some requester.current_map && is_some accepter.current_map)
    then (refused (codes "players mapInstance Invalid"), t)
    else if not (same_map requester.current_map accepter.current_map)
    then (refused (codes "Players map different"), t)
    else if not (is_alive requester) || not (is_alive accepter)
    then (refused (codes "player is not alive"), t)
    else if not created
    then (refused (codes "Player is already trading"), t')
    else (done 0, t')

-- `Cancel`
abbrev pub cancel_at : ℕ → Option TradeSession → Trades → Outcome × Trades
cancel_at address none t = (fault, t)
cancel_at address (some s) t =
    if s.executing
    then (refused (codes "Trade is already executing"), t)
    else (done 0, release address s t)

abbrev pub cancel_found : Option ℕ → Trades → Outcome × Trades
cancel_found none t = (refused (codes "player trade session Not Found"), t)
cancel_found (some address) t = cancel_at address (lookup address t.heap) t

pub cancel : ℤ → Trades → Outcome × Trades
cancel id t = cancel_found (lookup id t.sessions) t

-- `DeleteTradeSession`
abbrev pub delete_at : ℕ → Option TradeSession → Trades → Outcome × Trades
delete_at address none t = (fault, t)
delete_at address (some s) t = (done 0, release address s t)

pub delete_trade_session : ℕ → Trades → Outcome × Trades
delete_trade_session address t = delete_at address (lookup address t.heap) t

-- `GetTradeSession`
unfoldable get_trade_session : ℤ → Trades → Option ℕ
get_trade_session id t = lookup id t.sessions

-- `GetTargetPlayer` of the player `id` at the address `player`
abbrev target_at : ℕ → Option TradeSession → Option ℕ
target_at player none = none
target_at player (some s) = some (if s.a_player == player then s.b_player else s.a_player)

abbrev target_found : ℕ → Option ℕ → Trades → Option ℕ
target_found player none t = none
target_found player (some address) t = target_at player (lookup address t.heap)

pub get_target_player : ℕ → ℤ → Trades → Option ℕ
get_target_player player id t = target_found player (lookup id t.sessions) t

-- `GetMyItems`, and `GetTargetItems` with the sides exchanged
abbrev items_at :
    (TradeSession → List TradeItem × List TradeItem) → ℕ → Option TradeSession → List TradeItem
items_at sides player none = []
items_at sides player (some s) = if s.a_player == player then (sides s).0 else (sides s).1

abbrev items_found :
    (TradeSession → List TradeItem × List TradeItem) → ℕ → Option ℕ → Trades → List TradeItem
items_found sides player none t = []
items_found sides player (some address) t = items_at sides player (lookup address t.heap)

unfoldable get_my_items : ℕ → ℤ → Trades → List TradeItem
get_my_items player id t = items_found (λ s. (s.a_items, s.b_items)) player (lookup id t.sessions) t

unfoldable get_target_items : ℕ → ℤ → Trades → List TradeItem
get_target_items player id t =
    items_found (λ s. (s.b_items, s.a_items)) player (lookup id t.sessions) t
