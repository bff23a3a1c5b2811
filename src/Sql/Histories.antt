-- ===== src/Sql/Histories.antt =====
-- The tables of the two stores after any calls of their methods.
use stack_forge.Base.{List, All}
use stack_forge.Registry.{Source}
use stack_forge.Sql.{Engine, empty_tables}
use stack_forge.Sql.Catalogue.{IsUnique}
use stack_forge.Sql.Refinement.{live_view, view}
use stack_forge.Sql.Repository.{Call, IsFresh, calls, calls-IsUnique}
use stack_forge.Sql.Stores.{
  sqlite_store, postgres_store, sqlite_store-Implements, postgres_store-Implements,
}

module _ (src : Source) (engine : Engine) where
  -- After any calls of the methods of the SQLite store on empty tables, and of the PostgreSQL
  -- store, no two live domains have one name, whichever statements fail, if every new domain comes
  -- without a time of deletion.
  pub names-IsUnique :
      (cs : List Call)
      → All IsFresh cs
      → IsUnique (view (calls (sqlite_store src engine) cs empty_tables))
        × IsUnique (view (calls (postgres_store src engine) cs empty_tables))
  unfolding live_view
  names-IsUnique cs fresh = (
    calls-IsUnique view (sqlite_store-Implements src engine) cs empty_tables fresh tt,
    calls-IsUnique view (postgres_store-Implements src engine) cs empty_tables fresh tt,
  )
