-- ===== src/Tests.antt =====
-- Each theorem of the list in Lib.antt at a concrete input, and runs of the models.
mod Accounts
mod Amounts
mod Shop
mod Stocks
mod Wallets
mod Servers
mod Files
mod Invoices
mod Logins
mod Networks
mod Objects
mod Payments
mod Rates
mod Requests
mod Payouts
mod Blocks
mod Permissions
mod Creation
mod Nodes
mod Exchanges
mod Schedules
mod Batches
