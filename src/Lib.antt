-- ===== src/Lib.antt =====
-- Bitcart, a self-hosted processor of payments in cryptocurrencies.
--
-- The server under api/ sells products by invoices. An invoice offers several payment methods, one
-- for each wallet of its store. A daemon per coin, under daemons/, watches the blockchain for the
-- requests of its wallets and reports payments; the payment processor of the server takes them
-- from events, from new blocks and from a poll after a reconnect, and moves the invoice through its
-- statuses. A completed invoice reduces the stock of its products.
--
-- Files:
-- - Base: shared notation, booleans, lists, integers and association lists.
-- - Stock: api/services/crud/invoices.py (validate_stock_levels) and
--   api/services/crud/products.py (update_stock_levels). The products are a list of rows.
-- - Invoice: the statuses of api/invoices.py and the columns of api/models.py that the services
--   read. Invoice/Update: update_status, update_confirmations, process_notifications and load_one
--   of api/services/crud/invoices.py. The state is the row of the invoice with its payment rows,
--   the rows of the products, and the list of messages sent; each call of a notifier is an entry of
--   that list, which a later call only extends.
--   Invoice/Create: create_invoice_flow, create_payment_method, match_discount and get_methods_inds
--   of the same file. Invoice/Batch: process_mark_complete and the command mark_invalid of
--   process_batch_action of the same file, on a list of rows with their payments.
-- - Processor: api/services/payment_processor.py and get_max_confirmation_watch of
--   api/constants.py. Processor/Convert: convert_status of api/invoices.py. A poll hands objects of
--   its own database session to the handlers; which session an object belongs to is an argument.
-- - Daemon/Requests: the classes Wallet and Invoice of daemons/genericprocessor.py, the requests
--   that a coin's daemon waits for and the index of the addresses that pay them.
-- - Daemon/Blocks: process_block, process_block_by_chunks and process_pending of
--   daemons/genericprocessor.py, by the heights that they try. The chunks run concurrently: a run of them
--   is any merge of their heights. The loop over the chunks has fuel: one unit for each block, which is
--   enough since a chunk has at least one block.
-- - Daemon/Wallets: process_transaction, close_wallet_impl and the methods on requests of
--   daemons/genericprocessor.py, and load_wallet of daemons/eth.py. The set of wallets at an address
--   is a list. Daemon/Wallets/Indexed compares the index of addresses with the wallets.
-- - Daemon/Failover: MultipleProviderRPC of daemons/utils.py, the requests to several nodes. What a node
--   answers to a request is a function of the node. The loop over the nodes has one unit of fuel for
--   each of them, since it ends when it comes back to the first one.
-- - Daemon/Server: authenticate of daemons/utils.py, handle_request of daemons/base.py, execute_method of
--   daemons/genericprocessor.py and load_wallet of daemons/eth.py. Requests are handled one after another;
--   one that waits without end has no answer.
-- - Daemon/Events: notify_websockets of daemons/base.py, trigger_event and get_updates of
--   daemons/genericprocessor.py and the events of Electrum in daemons/btc.py. Connections and polls are
--   lists of what they were told.
-- - Auth: api/services/auth.py and api/utils/authorization.py. A scope is one that the code names or
--   a number; the text scope:model_id of a permission is a pair.
-- - Tokens: api/services/crud/tokens.py, for a user whose credentials are checked. Redis is an interface
--   of three operations with two laws; one-time passwords are an argument.
-- - Crud: api/services/crud/__init__.py, by the owners of rows and their foreign keys.
-- - Users: api/services/crud/users.py, with logout_all of api/services/crud/tokens.py. The counters and
--   codes in Redis are an interface; the window of a counter does not end during a run.
-- - Rates: api/ext/fxrate.py. A rule is the expression that Python's parser gives; a name is the list of
--   its parts, and X is the part 0. The depth of the evaluation is bounded by the code, so it has no fuel
--   of its own. Decimal numbers are an interface.
-- - Quotes: api/ext/exchanges/base.py, and the exchanges by CoinGecko's tickers of
--   api/ext/exchanges/coingecko.py. A pair is the list of its parts. Quotes/Fetch is the repeated request;
--   its fuel is 7, the number of requests after which the code gives up.
-- - WalletData: api/services/wallet_data.py, which asks the coin, the rules of Rates and the table of Money
--   for the rate of a wallet.
-- - Money: api/ext/moneyformat/__init__.py. A decimal number is a sign, a coefficient and the number of
--   digits after the point; a text is a list of pieces. The digits of a number are taken with as much
--   fuel as the number, since each digit divides it by ten.
-- - Daemon/Storage: daemons/storage.py and the upgrades of a wallet's file in daemons/genericprocessor.py.
--   The encoding of JSON is an interface with the law that what is dumped can be loaded.
-- - Backups: api/services/backup_manager.py, when a backup is made. The state is the policy that is stored,
--   the task of the worker and the time of the last run.
-- - Plugins: api/services/plugin_registry.py, its callbacks and events. What a callback does is a
--   function that the registry holds.
-- - Payout: api/services/payout_manager.py, the batch actions of api/services/crud/payouts.py and
--   api/services/crud/refunds.py. The state is the tables of payouts, refunds and invoices with the
--   messages and the transactions that were broadcast. Payout/Send sends one payout, Payout/Batch a
--   batch, Payout/Refund creates and submits refunds. What a coin's daemon and the exchange answer
--   are arguments.
-- - Tests: runs of the models and each theorem at a concrete input.
--
-- Numbers are natural numbers where the code has counts, ids or amounts that are not negative, and
-- integers for the stock and the requested amount. Amounts are counted in the smallest unit of the
-- coin, so that the decimals of the code are whole numbers. Texts that are only compared are
-- numbers. The current time is an argument. Where a loop has no fuel, it is a recursion on a list.
--
-- Not modelled: the web interface, the database's own behaviour (rows are values, and a call is
-- atomic), the nodes of the coins, the hooks of plugins, mail and other notifiers, and the
-- management of the server, since they are calls of other programs. The main exchange of CoinGecko,
-- Kraken and the list of exchanges that is loaded, the FIDO2 protocol, the search and pagination of
-- the CRUD services and the daemons of single coins but for their events are not modelled either.
pub mod Base
pub mod Stock
pub mod Invoice
pub mod Processor
pub mod Tests
pub mod Crud
pub mod Daemon
pub mod Payout
pub mod Auth
pub mod Plugins
pub mod Money
pub mod Rates
pub mod Tokens
pub mod Users
pub mod Quotes
pub mod Backups
pub mod WalletData
