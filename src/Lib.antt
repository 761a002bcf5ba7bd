-- ===== src/Lib.antt =====
-- Pare, bookkeeping and invoicing for Swedish companies: a model of its core in Go, and proofs.
--
-- The program's core is a set of pure packages under internal/ and a store over PostgreSQL that
-- applies them in transactions. This library models them as functions on values:
--
--   Common        native numbers, integers, Go's int64 with its wrap-around (Common.Int64), rounding
--                 division, byte strings, and the decimal notation of fmt and strconv
--   Ledger        internal/ledger: Money (money.go), Chart (chart.go), Verification (ledger.go),
--                 Reports (reports.go)
--   Moms          internal/moms: Moms (moms.go) and Moms.Purchase (purchase.go)
--   Invoice       internal/invoice/invoice.go
--   Crypto        internal/crypto/envelope.go: keys, and the encryption of fields
--   Bank          internal/bank: the entries of a statement, Bank.Amounts (bank.go), Bank.Csv (csv.go)
--   Store         internal/store: Store.Rows (the tables), Store (errors and transactions of store.go),
--                 Store.Act (operations as sequences of statements), Store.Posting (PostVerification
--                 and postVerification of store.go), Store.Audit, Store.Period and Store.Undo
--                 (store_audit.go), Store.Payment (the lines of RecordPayment in store_payment.go),
--                 Store.Invoices (store_invoice.go and store_payment.go), Store.Suppliers
--                 (store_supplier.go), Store.Bank (store_bank.go), Store.Counterparty (store.go and
--                 store_counterparty.go), Store.FiscalYear and Store.Close (store_fiscalyear.go and the
--                 trial balances of store.go), Store.Import (store_sie_import.go), Store.Command (a
--                 command: the call of a modelled operation that writes; it stands for no type of the
--                 code) and Store.Journal (what commands may do to the journal);
--                 Store.Views has an invoice as it is printed, and the lists of store_invoice.go,
--                 store_mcp.go and store_web.go; Store.Documents (store_document.go) has the receipts
--   Shield        internal/shield: sessions of pseudonyms (Shield), their vaults (Shield.Vaults), the walk
--                 over a result (Shield.Walk), and the way back (Shield.Unshield)
--   Mcp           internal/mcp: requests and who may send them (mcp.go), Mcp.Tools (tools.go), and
--                 Mcp.Serve, a request from its headers to its reply
--   Auth          internal/auth/auth.go
--   Handler       the middleware of internal/handler (csrf.go, web.go) in front of the pages
--   Sie           internal/sie/sie.go: amount and parseAmount, quote, tokenize, Export.Balances
--
-- An invoice, a purchase and a payment give lines of a verifikat; the store posts such lines through
-- postVerification, which calls Validate of internal/ledger, and logs what it did in the audit chain.
-- The state of the store is a record of tables, and an operation is a function from the tables to an
-- outcome and the tables after it, a sequence of statements; what a statement wrote stays when a later
-- one fails, unless they stand in a transaction. A transaction that fails leaves the tables as they
-- were, which is what PostgreSQL promises. The SQL that a query runs is written out where it is used: the
-- number of a verifikat is the greatest one of the series plus one in 32 bits, a unique index refuses a
-- second audit entry with the same previous hash, an UPDATE counts the rows that its condition finds.
-- Errors of single queries that come from the connection are not modelled, those of Begin and Commit are
-- arguments. The id that the database gives a row is an argument, and so are the random bytes of an
-- encryption and the day on which time.Now falls. AES-GCM, base64, the keyed hash of the audit chain, the
-- SHA-256 of a fingerprint and the format of a date are parameters, kept in Store.Env. Requests are
-- served one after the other.
--
-- The assistant reaches the store through internal/mcp alone: a request with the key runs a tool, the
-- tool's result is walked by internal/shield, which puts a pseudonym in the place of each tagged string, and
-- only then encoded. A result is a tree of values with the tags of its struct; reflect, encoding/json
-- and net/http are of Go, as functions or not at all. A page is reached through the middleware of
-- internal/handler, which asks internal/auth for the session.
--
-- An amount is an integer, and every sum, difference and product is wrapped to an int64 the way Go
-- computes it, also where the value could not leave the range; no theorem assumes that it does not
-- unless it says so. A string is the list of its bytes, which need not be UTF-8. A date is a number of
-- days, since the code only stores and compares dates. An error of Go is a constructor of an error
-- type, and the nil error is `none`. Loops over slices are recursions on lists.
--
-- There is fuel in three places. The loop of Common.Decimal divides a number by ten: it starts with the
-- successor of the number, more than the rounds that it takes. The loop of Sie.tokenize starts with
-- the length of the line, since every round takes a byte or more; should the fuel run out before the
-- line ends, the result is `none`. The loop of Shield.Unshield over a text has fuel of the same size.
--
-- Not modelled: of internal/store the sweep of personal data, the contents of ExportSIE, plain
-- queries for pages, and the set-up of a company; the records that internal/sie writes and parses;
-- camt.go of internal/bank; the handlers of pages. Templates, e-mail, rendering, log shipping,
-- configuration and generated queries are I/O and are left out.
pub mod Common
pub mod Ledger
pub mod Moms
pub mod Invoice
pub mod Bank
pub mod Crypto
pub mod Store
pub mod Shield
pub mod Mcp
pub mod Auth
pub mod Handler
pub mod Sie
